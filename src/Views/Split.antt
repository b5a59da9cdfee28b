-- ===== src/Views/Split.antt =====
-- Splitting a view loses nothing (include/axoncache/common/StringViewUtils.h).
use axon_cache.Prelude.{
  ℕ, zero, suc, ◌≤◌, ◌≡◌, refl, sym, ap, ◌∙◌, inl, inr, List, [], ◌∷◌, ◌++◌, Bytes, Option, none,
  some, length, length-append, is_empty, false, Option-cases, ◌==◌, ==_iff, Bool-cases, arith,
}
use mathlib.Core.List.{append_assoc}
use axon_cache.Text.{join, join_rest}
use axon_cache.Views.{
  view_split_loop, string_view_split, strip_prefix, search_delimiter, split_at_loop,
  string_view_split_at,
}

join_rest-filled :
    (d : ℕ) (views : List Bytes) → is_empty views ≡ false → join_rest d views ≡ d ∷ join d views
unfolding join join_rest
join_rest-filled d [] e = absurd (cc e)
join_rest-filled d (view ∷ views) e = refl

view_split_loop-filled :
    (d : ℕ) (token input : Bytes) → is_empty (view_split_loop d token input) ≡ false
unfolding view_split_loop
view_split_loop-filled d token [] = refl
view_split_loop-filled d token (c ∷ rest) = elim (Bool-cases (c == d)) [
  | inl e ↦ rw (view_split_loop, e)
  | inr e ↦ rw (view_split_loop, e) (view_split_loop-filled d (token ++ (c ∷ [])) rest)
]

view_split_loop-join :
    (d : ℕ) (token input : Bytes) → join d (view_split_loop d token input) ≡ token ++ input
unfolding view_split_loop join join_rest
view_split_loop-join d token [] = refl
view_split_loop-join d token (c ∷ rest) = elim (Bool-cases (c == d)) [
  | inl e ↦
      let same : d ≡ c = sym ((==_iff c d).0 e) in
      rw (view_split_loop, e)
        (ap (λ (t : Bytes). token ++ t)
          (join_rest-filled d (view_split_loop d [] rest) (view_split_loop-filled d [] rest)
            ∙ ap (λ (t : Bytes). d ∷ t) (view_split_loop-join d [] rest)
            ∙ ap (λ (x : ℕ). x ∷ rest) same))
  | inr e ↦
      rw (view_split_loop, e)
        (view_split_loop-join d (token ++ (c ∷ [])) rest ∙ append_assoc token (c ∷ []) rest)
]

-- The views of a split at a character, joined with the character, are the input.
pub join-string_view_split : (d : ℕ) (input : Bytes) → join d (string_view_split d input) ≡ input
unfolding string_view_split join join_rest
join-string_view_split d [] = refl
join-string_view_split d (c ∷ rest) = view_split_loop-join d [] (c ∷ rest)

strip_prefix-append :
    (delimiter input rest : Bytes)
    → strip_prefix delimiter input ≡ some rest
    → delimiter ++ rest ≡ input
unfolding strip_prefix
strip_prefix-append [] input rest e = cc e
strip_prefix-append (d ∷ ds) [] rest e = absurd (cc e)
strip_prefix-append (d ∷ ds) (c ∷ input) rest e = elim (Bool-cases (d == c)) [
  | inl same ↦
      let tail : ds ++ rest ≡ input = strip_prefix-append ds input rest (rw same at e) in
      cc (tail, (==_iff d c).0 same)
  | inr other ↦ absurd (cc (rw other at e))
]

-- What a search answers: the input as the piece, or the piece, the delimiter and the rest.
abbrev Found : Bytes → Bytes → Bytes → Option Bytes → Type 0
Found delimiter input piece none = piece ≡ input
Found delimiter input piece (some rest) = piece ++ (delimiter ++ rest) ≡ input

behind-Found :
    (delimiter input piece : Bytes) (c : ℕ) (rest : Option Bytes)
    → Found delimiter input piece rest
    → Found delimiter (c ∷ input) (c ∷ piece) rest
behind-Found delimiter input piece c none f = ap (λ (t : Bytes). c ∷ t) f
behind-Found delimiter input piece c (some rest) f = ap (λ (t : Bytes). c ∷ t) f

search_delimiter-Found :
    (delimiter input : Bytes)
    → Found delimiter input
        (search_delimiter delimiter input).0
        (search_delimiter delimiter input).1
unfolding search_delimiter
search_delimiter-Found delimiter [] = refl
search_delimiter-Found delimiter (c ∷ input) =
    elim (Option-cases (strip_prefix delimiter (c ∷ input))) [
      | inl e ↦ rw e (behind-Found delimiter input _ c _ (search_delimiter-Found delimiter input))
      | inr (rest, e) ↦ rw e (strip_prefix-append delimiter (c ∷ input) rest e)
    ]

-- The views with the delimiter between each two.
abbrev pub join_with : Bytes → List Bytes → Bytes
join_with delimiter [] = []
join_with delimiter (view ∷ []) = view
join_with delimiter (view ∷ (next ∷ views)) =
    view ++ (delimiter ++ join_with delimiter (next ∷ views))

join_with-filled :
    (delimiter view : Bytes) (views : List Bytes)
    → is_empty views ≡ false
    → join_with delimiter (view ∷ views) ≡ view ++ (delimiter ++ join_with delimiter views)
join_with-filled delimiter view [] e = absurd (cc e)
join_with-filled delimiter view (next ∷ views) e = refl

split_at_loop-filled :
    (fuel : ℕ) (delimiter input : Bytes) → is_empty (split_at_loop fuel delimiter input) ≡ false
unfolding split_at_loop
split_at_loop-filled zero delimiter input = refl
split_at_loop-filled (suc fuel) delimiter [] = refl
split_at_loop-filled (suc fuel) delimiter (c ∷ rest) =
    elim (Option-cases (search_delimiter delimiter (c ∷ rest)).1) [
      | inl e ↦ rw (split_at_loop, e)
      | inr (after, e) ↦ rw (split_at_loop, e)
    ]

-- Each turn shortens the input by the delimiter at least.
shorter :
    (piece delimiter after input : Bytes) (fuel : ℕ)
    → is_empty delimiter ≡ false
    → piece ++ (delimiter ++ after) ≡ input
    → length input ≤ suc fuel
    → length after ≤ fuel
shorter piece [] after input fuel n e h = absurd (cc n)
shorter piece (d ∷ ds) after input fuel n e h = omega (
  arith,
  ap (λ (t : Bytes). length t) e,
  length-append piece ((d ∷ ds) ++ after),
  length-append (d ∷ ds) after,
)

split_at_loop-join_with :
    (fuel : ℕ) (delimiter input : Bytes)
    → is_empty delimiter ≡ false
    → length input ≤ fuel
    → join_with delimiter (split_at_loop fuel delimiter input) ≡ input
unfolding split_at_loop
split_at_loop-join_with zero delimiter [] n h = refl
split_at_loop-join_with zero delimiter (c ∷ rest) n h = absurd (omega arith)
split_at_loop-join_with (suc fuel) delimiter [] n h = refl
split_at_loop-join_with (suc fuel) delimiter (c ∷ rest) n h =
    let found = search_delimiter-Found delimiter (c ∷ rest) in
    elim (Option-cases (search_delimiter delimiter (c ∷ rest)).1) [
      | inl e ↦ rw (split_at_loop, e) (rw e at found)
      | inr (after, e) ↦
          let whole : (search_delimiter delimiter (c ∷ rest)).0 ++ (delimiter ++ after) ≡ c ∷ rest =
            rw e at found in
          let smaller = shorter _ delimiter after (c ∷ rest) fuel n whole h in
          rw (split_at_loop, e)
            (join_with-filled delimiter _ _ (split_at_loop-filled fuel delimiter after)
              ∙ ap (λ (t : Bytes). (search_delimiter delimiter (c ∷ rest)).0 ++ (delimiter ++ t))
                  (split_at_loop-join_with fuel delimiter after n smaller)
              ∙ whole)
    ]

-- The views of a split at a string, with the string between each two, are the input.
pub join_with-string_view_split_at :
    (delimiter input : Bytes) → join_with delimiter (string_view_split_at delimiter input) ≡ input
unfolding string_view_split_at
join_with-string_view_split_at delimiter [] = refl
join_with-string_view_split_at [] (c ∷ rest) = refl
join_with-string_view_split_at (d ∷ ds) (c ∷ rest) =
    split_at_loop-join_with (length (c ∷ rest)) (d ∷ ds) (c ∷ rest) refl (omega arith)
