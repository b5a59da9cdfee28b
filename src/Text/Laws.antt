-- ===== src/Text/Laws.antt =====
-- Splitting undoes joining (include/axoncache/common/StringUtils.h).
use axon_cache.Prelude.{
  ℕ, ◌≡◌, ◌≢◌, refl, sym, ap, ◌∙◌, false, List, [], ◌∷◌, ◌++◌, Bytes, none, some, All, ◌==◌,
  ==_refl,
}
use mathlib.Core.List.{append_assoc, append-nil}
use axon_cache.Text.{split_loop, split, join_rest, join}

-- No byte of the part is the separator.
abbrev pub IsFree : ℕ → Bytes → Type 0
IsFree delim = All (λ c. (c == delim) ≡ false)

abbrev pub EndsNonEmpty : List Bytes → Type 0
EndsNonEmpty [] = Unit {0}
EndsNonEmpty (part ∷ []) = part ≢ []
EndsNonEmpty (part ∷ (next ∷ parts)) = EndsNonEmpty (next ∷ parts)

split_loop-token :
    (delim : ℕ) (token s rest : Bytes)
    → IsFree delim s
    → split_loop delim (some token) (s ++ rest) ≡ split_loop delim (some (token ++ s)) rest
unfolding split_loop
split_loop-token delim token [] rest h =
    ap (λ (t : Bytes). split_loop delim (some t) rest) (sym (append-nil token))
split_loop-token delim token (c ∷ s) rest (hc, h) =
    rw (split_loop, hc)
      (split_loop-token delim (token ++ (c ∷ [])) s rest h
        ∙ ap (λ (t : Bytes). split_loop delim (some t) rest) (append_assoc token (c ∷ []) s))

split_loop-end :
    (delim : ℕ) (s : Bytes) → IsFree delim s → s ≢ [] → split_loop delim none s ≡ s ∷ []
unfolding split_loop
split_loop-end delim [] h n = absurd (n refl)
split_loop-end delim (c ∷ s) (hc, h) n =
    rw (split_loop, hc)
      (ap (split_loop delim (some (c ∷ []))) (sym (append-nil s))
        ∙ split_loop-token delim (c ∷ []) s [] h)

split_loop-close :
    (delim : ℕ) (token rest : Bytes)
    → split_loop delim (some token) (delim ∷ rest) ≡ token ∷ split_loop delim none rest
unfolding split_loop
split_loop-close delim token rest = rw (split_loop, ==_refl delim)

split_loop-delim :
    (delim : ℕ) (s rest : Bytes)
    → IsFree delim s
    → split_loop delim none (s ++ (delim ∷ rest)) ≡ s ∷ split_loop delim none rest
unfolding split_loop
split_loop-delim delim [] rest h = rw (split_loop, ==_refl delim)
split_loop-delim delim (c ∷ s) rest (hc, h) =
    rw (split_loop, hc)
      (split_loop-token delim (c ∷ []) s (delim ∷ rest) h ∙ split_loop-close delim (c ∷ s) rest)

-- Splitting what was joined gives the parts back, if no part has the separator in it and the last
-- part is not empty. Parts before the last may be empty.
pub split-join :
    (delim : ℕ) (parts : List Bytes)
    → All (IsFree delim) parts
    → EndsNonEmpty parts
    → split delim (join delim parts) ≡ parts
unfolding split split_loop join join_rest
split-join delim [] h n = refl
split-join delim (part ∷ []) (hp, h) n =
    ap (split_loop delim none) (append-nil part) ∙ split_loop-end delim part hp n
split-join delim (part ∷ (next ∷ parts)) (hp, h) n =
    split_loop-delim delim part (join delim (next ∷ parts)) hp
    ∙ ap (λ (t : List Bytes). part ∷ t) (split-join delim (next ∷ parts) h n)
