-- ===== src/Parser.antt =====
-- The lines of an input file (src/axoncache/parser/CacheValueParser.cpp): a key, a separator, and a text
-- or, behind the vector type's character, a list of texts.
pub mod Lines
use axon_cache.Prelude.{
  ℕ, Bool, true, false, not, List, [], ◌∷◌, Bytes, Option, none, some, is_empty, ltb, ◌==◌,
  if◌then◌else◌, Result, ok, undefined, ◌>>=◌,
}
use axon_cache.Typed.Values.{Typed, text, texts}
use axon_cache.Views.{view_split_loop}

-- The control characters, from the settings.
pub record CacheValueParser : Type 0 where
  pub vector_type : ℕ
  pub vector_elem_separator : ℕ
  pub key_value_separator : ℕ

abbrev after : ℕ → Option (Bytes × Bytes) → Option (Bytes × Bytes)
after c none = none
after c (some (key, value)) = some (c ∷ key, value)

-- `std::memchr`: what comes before the first separator and what comes after it.
unfoldable pub cut : ℕ → Bytes → Option (Bytes × Bytes)
cut separator [] = none
cut separator (c ∷ rest) = elim (c == separator) [
  | true ↦ some ([], rest)
  | false ↦ after c (cut separator rest)
]

-- The order of `std::string_view`s: by the first byte that differs, a prefix first.
unfoldable pub is_before : Bytes → Bytes → Bool
is_before [] [] = false
is_before [] (c ∷ t) = true
is_before (c ∷ s) [] = false
is_before (c ∷ s) (d ∷ t) = if c == d then is_before s t else ltb c d

unfoldable pub insert_sorted : Bytes → List Bytes → List Bytes
unfolding is_before
insert_sorted s [] = s ∷ []
insert_sorted s (t ∷ rest) = elim (is_before t s) [
  | true ↦ t ∷ insert_sorted s rest
  | false ↦ s ∷ (t ∷ rest)
]

-- `std::sort`; equal views cannot be told apart.
unfoldable pub sort : List Bytes → List Bytes
unfolding insert_sorted
sort [] = []
sort (s ∷ rest) = insert_sorted s (sort rest)

-- `parseVector`, whose loop cuts the value where `view_split_loop` does
unfoldable pub parse_vector : CacheValueParser → Bytes → List Bytes
unfolding sort view_split_loop
parse_vector p value_str =
    if is_empty value_str then [] else sort (view_split_loop p.vector_elem_separator [] value_str)

-- The key of a vector begins behind the vector type's character, which must not be the separator.
abbrev key_of_line : Bool → Bytes → Result Bytes
key_of_line false key = ok key
key_of_line true [] = undefined
key_of_line true (c ∷ key) = ok key

abbrev starts_with : ℕ → Bytes → Bool
starts_with d [] = false
starts_with d (c ∷ rest) = c == d

abbrev parsed : CacheValueParser → Bool → Option (Bytes × Bytes) → Result (Bytes × Typed)
parsed p is_vector none = ok ([], text [])
parsed p is_vector (some (key, value_str)) = key_of_line is_vector key >>= λ key_str.
    ok (key_str, if is_vector then texts (parse_vector p value_str) else text value_str)

-- `parseValue`; a line without a separator is logged and reads as an empty key and value.
unfoldable pub parse_value : CacheValueParser → Bytes → Result (Bytes × Typed)
unfolding cut parse_vector
parse_value p line =
    if is_empty line
    then ok ([], text [])
    else parsed p (starts_with p.vector_type line) (cut p.key_value_separator line)
