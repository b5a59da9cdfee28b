-- ===== src/Convert.antt =====
-- How values become bytes and back (src/axoncache/transformer/StringListToString.cpp,
-- StringViewToNullTerminatedString, TypeToString.cpp). A `double` and a `float` are their bit
-- patterns, an `int64_t` is its two's complement pattern.
pub mod Laws
use axon_cache.Prelude.{
  ℕ, zero, suc, ◌+◌, ◌*◌, ◌/◌, ◌%◌, ◌^◌, Bool, true, false, List, [], ◌∷◌, ◌++◌, map, Bytes, length,
  ltb, ◌==◌, not, if◌then◌else◌, Result, ok, throw, undefined, diverges, guard, ◌>>=◌, ◌>>◌,
  vector_too_large, vector_element_too_large,
}
use axon_cache.Ram.{le, from_le}
use axon_cache.Domain.{vector_length_limit, vector_element_limit}

-- `StringViewToNullTerminatedString::transform`
unfoldable pub null_terminated : Bytes → Bytes
null_terminated input = input ++ (0 ∷ [])

unfoldable pub drop_last : Bytes → Bytes
drop_last [] = []
drop_last (b ∷ []) = []
drop_last (b ∷ (c ∷ bs)) = b ∷ drop_last (c ∷ bs)

-- `trimExtraNullTerminator`: the size of an empty view wraps around to the largest one.
unfoldable pub trim_extra_null_terminator : Bytes → Result Bytes
unfolding drop_last
trim_extra_null_terminator [] = undefined
trim_extra_null_terminator (b ∷ bs) = ok (drop_last (b ∷ bs))

-- The loop over the elements of `StringListToString::transform`.
unfoldable pub elements_to_string : List Bytes → Result Bytes
elements_to_string [] = ok []
elements_to_string (s ∷ rest) = do
  guard (ltb vector_element_limit (length s)) vector_element_too_large
  r ← elements_to_string rest
  ok (le 2 (length s) ++ (s ++ (0 ∷ r)))

unfoldable pub string_list_to_string : List Bytes → Result Bytes
unfolding elements_to_string
string_list_to_string input = do
  guard (ltb vector_length_limit (length input)) vector_too_large
  r ← elements_to_string input
  ok (le 2 (length input) ++ r)

-- The first `n` bytes and the rest; reading past the end of the view is undefined behaviour.
unfoldable pub split_bytes : ℕ → Bytes → Result (Bytes × Bytes)
split_bytes zero bs = ok ([], bs)
split_bytes (suc n) [] = undefined
split_bytes (suc n) (b ∷ bs) = do (front, back) ← split_bytes n bs; ok (b ∷ front, back)

-- The loop of the reverse `transform`: length, element, and the skipped terminator.
unfoldable pub elements_from_string : ℕ → Bytes → Result (List Bytes)
unfolding split_bytes
elements_from_string zero bs = ok []
elements_from_string (suc n) bs = do
  (len, r) ← split_bytes 2 bs
  (s, r') ← split_bytes (from_le len) r
  (_, r'') ← split_bytes 1 r'
  rest ← elements_from_string n r''
  ok (s ∷ rest)

unfoldable pub string_list_from_string : Bytes → Result (List Bytes)
unfolding split_bytes elements_from_string
string_list_from_string input = do (n, r) ← split_bytes 2 input; elements_from_string (from_le n) r

-- `transform<T>( const T & )` for a type of `w` bytes, by the bit pattern of the value
unfoldable pub type_to_string : ℕ → ℕ → Bytes
type_to_string w v = le w v

-- `transform<T>( std::string_view )`: the default value where the size is not that of the type
unfoldable pub type_from_string : ℕ → Bytes → ℕ
type_from_string w input = if not (length input == w) then 0 else from_le input

-- `transform<std::vector<float>>( const std::vector<float> & )`
unfoldable pub floats_to_string : List ℕ → Bytes
floats_to_string [] = []
floats_to_string (f ∷ fs) = le 4 f ++ floats_to_string fs

abbrev pub cons_float : Result (Bytes × Bytes) → (Bytes → List ℕ) → List ℕ
cons_float (ok (f, rest)) others = from_le f ∷ others rest
cons_float _ others = []

-- The copy of `n` floats out of the view.
unfoldable pub floats_of : ℕ → Bytes → List ℕ
floats_of zero bs = []
floats_of (suc n) bs = cons_float (split_bytes 4 bs) (floats_of n)

-- `transform<std::vector<float>>( std::string_view )`, and the same for `std::span<const float>`
unfoldable pub floats_from_string : Bytes → List ℕ
unfolding floats_of
floats_from_string input =
    let output_size = length input / 4 in
    if not (length input % 4 == 0) then [] else floats_of output_size input
