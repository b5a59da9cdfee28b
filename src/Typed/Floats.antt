-- ===== src/Typed/Floats.antt =====
-- Vectors of floats and their elements (src/axoncache/cache/base/HashedCacheBase.cpp). An `int32_t` is
-- its two's complement pattern.
pub mod Elements
pub mod Single
use axon_cache.Prelude.{
  ℕ, zero, suc, ◌+◌, ◌*◌, ◌%◌, ◌^◌, ◌≡◌, refl, ap, ◌∙◌, Bool, true, false, not, ◌&&◌, List, [], ◌∷◌,
  Bytes, Option, none, some, is_empty, length, get_elem?, leb, ltb, if◌then◌else◌, Result, ok,
  throw, undefined, diverges, ◌>>=◌,
}
use axon_cache.Ram.{from_le}
use axon_cache.Domain.{CacheValueType, string, float_list}
use axon_cache.Convert.{split_bytes, floats_from_string}
use axon_cache.Views.{NumberParser, string_view_to_vector}
use axon_cache.Typed.{Reader}

abbrev pub is_negative : ℕ → Bool
is_negative i = leb (2 ^ 31) (i % 2 ^ 32)

abbrev floats_by_type : NumberParser → CacheValueType → Bytes → Result (List ℕ)
floats_by_type p string str = string_view_to_vector p b':' str
floats_by_type p float_list str = ok (floats_from_string str)
floats_by_type p _ str = ok []

unfoldable pub get_float_vector : NumberParser → Reader → Bytes → Result (List ℕ × ℕ)
get_float_vector p r key = do
  ((str, type), hash) ← r.get_with_type_internal key
  values ← if is_empty str then ok [] else floats_by_type p type str
  ok (values, hash)

abbrev pub element : Option ℕ → Result ℕ
element none = undefined
element (some value) = ok value

unfoldable pub skip_bytes : ℕ → Bytes → Bytes
skip_bytes zero str = str
skip_bytes (suc n) [] = []
skip_bytes (suc n) (b ∷ str) = skip_bytes n str

-- `*( float * )( value.data() + offset )`
unfoldable pub float_at : Bytes → ℕ → Result ℕ
unfolding skip_bytes
float_at str offset = do (f, _) ← split_bytes 4 (skip_bytes offset str); ok (from_le f)

abbrev pub zeros : List ℕ → List ℕ
zeros [] = []
zeros (i ∷ is) = 0 ∷ zeros is

-- The loop of `getFloatAtIndices` over the numbers of a text.
abbrev pub numbers_at : List ℕ → List ℕ → Result (List ℕ)
numbers_at values [] = ok []
numbers_at values (i ∷ indices) =
    let inside =
      not (is_negative i)
      && (not (is_negative (length values)) && ltb i (length values % 2 ^ 32)) in
    (if inside then element (get_elem? values i) else ok 0) >>= λ value.
    numbers_at values indices >>= λ result. ok (value ∷ result)

-- The loop of `getFloatAtIndices` over stored floats.
abbrev pub stored_at : Bytes → List ℕ → Result (List ℕ)
stored_at str [] = ok []
stored_at str (i ∷ indices) =
    let offset = i * 4 in
    (if not (is_negative i) && ltb offset (length str) then float_at str offset else ok 0)
    >>= λ value. stored_at str indices >>= λ result. ok (value ∷ result)

abbrev pub elements_by_type : NumberParser → CacheValueType → Bytes → List ℕ → Result (List ℕ)
elements_by_type p string str indices =
    string_view_to_vector p b':' str >>= λ values. numbers_at values indices
elements_by_type p float_list str indices = stored_at str indices
elements_by_type p _ str indices = ok (zeros indices)

unfoldable pub get_float_at_indices : NumberParser → Reader → Bytes → List ℕ → Result (List ℕ × ℕ)
get_float_at_indices p r key indices = do
  ((str, type), hash) ← r.get_with_type_internal key
  result ← if is_empty str then ok (zeros indices) else elements_by_type p type str indices
  ok (result, hash)

-- `getFloatAtIndex`, by type
abbrev pub element_by_type : NumberParser → CacheValueType → Bytes → ℕ → Result ℕ
element_by_type p string str index = string_view_to_vector p b':' str >>= λ values.
    (if not (is_negative index)
        && (not (is_negative (length values)) && ltb index (length values % 2 ^ 32))
      then element (get_elem? values index)
      else ok 0)
element_by_type p float_list str index =
    let offset = index * 4 in
    if not (is_negative index) && ltb offset (length str) then float_at str offset else ok 0
element_by_type p _ str index = ok 0

unfoldable pub get_float_at_index : NumberParser → Reader → Bytes → ℕ → Result (ℕ × ℕ)
get_float_at_index p r key index = do
  ((str, type), hash) ← r.get_with_type_internal key
  result ← if is_empty str then ok 0 else element_by_type p type str index
  ok (result, hash)
