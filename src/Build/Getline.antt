-- ===== src/Build/Getline.antt =====
-- The lines of a file (src/axoncache/reader/DataFileReader.cpp).
use axon_cache.Prelude.{
  ℕ, ◌≡◌, refl, ap, sym, ◌∙◌, List, [], ◌∷◌, ◌++◌, Bytes, is_empty, if◌then◌else◌, ==_refl, All,
}
use mathlib.Core.List.{append-nil, append_assoc}
use axon_cache.Text.Laws.{IsFree}
use axon_cache.Build.{get_lines}

-- Each line with the delimiter behind it.
abbrev pub terminated : ℕ → List Bytes → Bytes
terminated delimiter [] = []
terminated delimiter (line ∷ lines) = line ++ (delimiter ∷ terminated delimiter lines)

-- What stands behind the last delimiter, if anything does.
abbrev pub last_line : Bytes → List Bytes
last_line last = if is_empty last then [] else last ∷ []

get_lines-end : (d : ℕ) (token : Bytes) → get_lines d token [] ≡ last_line token
unfolding get_lines
get_lines-end d [] = refl
get_lines-end d (t ∷ token) = refl

get_lines-token :
    (d : ℕ) (token s rest : Bytes)
    → IsFree d s
    → get_lines d token (s ++ rest) ≡ get_lines d (token ++ s) rest
unfolding get_lines
get_lines-token d token [] rest h = ap (λ (t : Bytes). get_lines d t rest) (sym (append-nil token))
get_lines-token d token (c ∷ s) rest (hc, h) =
    rw (get_lines, hc)
      (get_lines-token d (token ++ (c ∷ [])) s rest h
        ∙ ap (λ (t : Bytes). get_lines d t rest) (append_assoc token (c ∷ []) s))

get_lines-close :
    (d : ℕ) (token rest : Bytes) → get_lines d token (d ∷ rest) ≡ token ∷ get_lines d [] rest
unfolding get_lines
get_lines-close d token rest = rw (get_lines, ==_refl d)

-- `std::getline` reads from lines with the delimiter behind each, and what stands behind the last
-- delimiter, these lines and then that if it is not empty, if none of them has the delimiter in it.
pub get_lines-terminated :
    (d : ℕ) (lines : List Bytes) (last : Bytes)
    → All (IsFree d) lines
    → IsFree d last
    → get_lines d [] (terminated d lines ++ last) ≡ lines ++ last_line last
get_lines-terminated d [] last h hl =
    ap (get_lines d []) (sym (append-nil last))
    ∙ get_lines-token d [] last [] hl
    ∙ get_lines-end d last
get_lines-terminated d (line ∷ lines) last (hl, h) hlast =
    ap (get_lines d []) (append_assoc line (d ∷ terminated d lines) last)
    ∙ get_lines-token d [] line (d ∷ (terminated d lines ++ last)) hl
    ∙ get_lines-close d line (terminated d lines ++ last)
    ∙ ap (λ (t : List Bytes). line ∷ t) (get_lines-terminated d lines last h hlast)
