-- ===== src/Parser/Lines.antt =====
-- Lines of the two forms are read as they are meant (src/axoncache/parser/CacheValueParser.cpp).
use axon_cache.Prelude.{
  ℕ, ◌≡◌, refl, sym, ap, ◌∙◌, false, List, [], ◌∷◌, ◌++◌, Bytes, some, is_empty, All, ◌==◌, ==_refl,
  ok,
}
use mathlib.Core.List.{append_assoc, append-nil}
use axon_cache.Text.{join, join_rest}
use axon_cache.Text.Laws.{IsFree}
use axon_cache.Typed.Values.{text, texts}
use axon_cache.Views.{view_split_loop}
use axon_cache.Parser.{CacheValueParser, cut, sort, parse_vector, parse_value}

cut-append :
    (d : ℕ) (key value : Bytes) → IsFree d key → cut d (key ++ (d ∷ value)) ≡ some (key, value)
unfolding cut
cut-append d [] value h = rw (cut, ==_refl d)
cut-append d (c ∷ key) value (hc, h) = rw (cut, hc, cut-append d key value h)

split-token :
    (d : ℕ) (token s rest : Bytes)
    → IsFree d s
    → view_split_loop d token (s ++ rest) ≡ view_split_loop d (token ++ s) rest
unfolding view_split_loop
split-token d token [] rest h =
    ap (λ (t : Bytes). view_split_loop d t rest) (sym (append-nil token))
split-token d token (c ∷ s) rest (hc, h) =
    rw (view_split_loop, hc)
      (split-token d (token ++ (c ∷ [])) s rest h
        ∙ ap (λ (t : Bytes). view_split_loop d t rest) (append_assoc token (c ∷ []) s))

split-close :
    (d : ℕ) (token rest : Bytes)
    → view_split_loop d token (d ∷ rest) ≡ token ∷ view_split_loop d [] rest
unfolding view_split_loop
split-close d token rest = rw (view_split_loop, ==_refl d)

split_loop-join :
    (d : ℕ) (part : Bytes) (parts : List Bytes)
    → All (IsFree d) (part ∷ parts)
    → view_split_loop d [] (join d (part ∷ parts)) ≡ part ∷ parts
unfolding view_split_loop join join_rest
split_loop-join d part [] (h, _) = split-token d [] part [] h
split_loop-join d part (next ∷ parts) (h, hs) =
    split-token d [] part (d ∷ join d (next ∷ parts)) h
    ∙ split-close d part (join d (next ∷ parts))
    ∙ ap (λ (t : List Bytes). part ∷ t) (split_loop-join d next parts hs)

is_empty-cut : (key value : Bytes) (d : ℕ) → is_empty (key ++ (d ∷ value)) ≡ false
is_empty-cut [] value d = refl
is_empty-cut (c ∷ key) value d = refl

-- A line of a key without the separator, not beginning with the vector type, and the separator reads
-- as the key and the text behind it, whatever the text holds.
pub parse_value-text :
    (p : CacheValueParser) (c : ℕ) (key value : Bytes)
    → IsFree p.key_value_separator (c ∷ key)
    → (c == p.vector_type) ≡ false
    → parse_value p ((c ∷ key) ++ (p.key_value_separator ∷ value)) ≡ ok (c ∷ key, text value)
unfolding parse_value
parse_value-text p c key value free plain =
    rw (plain, cut-append p.key_value_separator (c ∷ key) value free)

-- A line of the vector type's character, a key, the separator, and parts joined with the element
-- separator reads as the key and the sorted list of the parts, if neither the character nor the key
-- has the separator in it, no part has the element separator, and the parts are not one empty one.
pub parse_value-texts :
    (p : CacheValueParser) (key part : Bytes) (parts : List Bytes)
    → IsFree p.key_value_separator (p.vector_type ∷ key)
    → All (IsFree p.vector_elem_separator) (part ∷ parts)
    → is_empty (join p.vector_elem_separator (part ∷ parts)) ≡ false
    → parse_value p (
        (p.vector_type ∷ key)
        ++ (p.key_value_separator ∷ join p.vector_elem_separator (part ∷ parts)))
      ≡ ok (key, texts (sort (part ∷ parts)))
unfolding parse_value parse_vector
parse_value-texts p key part parts free free_parts full = rw (
  ==_refl p.vector_type,
  cut-append p.key_value_separator (p.vector_type ∷ key)
      (join p.vector_elem_separator (part ∷ parts)) free,
  full,
  split_loop-join p.vector_elem_separator part parts free_parts,
)
