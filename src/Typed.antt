-- ===== src/Typed.antt =====
-- The typed reads and writes of HashedCacheBase (include/axoncache/cache/base/HashedCacheBase.h,
-- src/axoncache/cache/base/HashedCacheBase.cpp), over the virtual lookups that they call. Each
-- read also reports the hash that `foundHash` receives.
pub mod Values
pub mod Stored
pub mod Answers
pub mod Reads
pub mod Linear
pub mod Floats
use axon_cache.Prelude.{
  ℕ, ◌+◌, Bool, true, false, not, List, [], ◌∷◌, Bytes, Option, none, some, is_empty, length, ◌==◌,
  bytes_eq, if◌then◌else◌, Result, ok, throw, undefined, ◌>>=◌, type_is_string,
}
use axon_cache.Domain.{
  CacheValueType, string, string_list, bool, int64, double, int, float, float_list,
}
use axon_cache.Convert.{
  null_terminated, trim_extra_null_terminator, string_list_to_string, string_list_from_string,
  type_to_string, type_from_string, floats_to_string, floats_from_string,
}
use axon_cache.Text.{to_bool, to_long}

-- `getInternal( key, type, &isExist, foundHash )` and `getWithTypeInternal( key, foundHash )`
pub record Reader : Type 0 where
  pub get_internal : Bytes → CacheValueType → Result (Bytes × Bool × ℕ)
  pub get_with_type_internal : Bytes → Result ((Bytes × CacheValueType) × ℕ)

-- The number parsers that the code calls: `fast_float::from_chars` into a double (vendored, no
-- value on an error) and `strtod` on a terminated copy, each with the number of bytes that it read.
pub record DoubleParsers : Type 0 where
  pub fast_from_chars : Bytes → Option (ℕ × ℕ)
  pub strtod : Bytes → ℕ × ℕ

-- The answer of a read of a single value: the value, whether it was found, and the hash.
abbrev pub Answer : Type 0 → Type 0
Answer A = Result ((A × Bool) × ℕ)

-- `to_string( CacheValueType )`
unfoldable pub to_string : CacheValueType → Bytes
to_string string = b'S' ∷ b't' ∷ b'r' ∷ b'i' ∷ b'n' ∷ b'g' ∷ []
to_string string_list = b'S' ∷ b't' ∷ b'r' ∷ b'i' ∷ b'n' ∷ b'g' ∷ b'L' ∷ b'i' ∷ b's' ∷ b't' ∷ []
to_string bool = b'B' ∷ b'o' ∷ b'o' ∷ b'l' ∷ []
to_string int = b'I' ∷ b'n' ∷ b't' ∷ []
to_string float = b'F' ∷ b'l' ∷ b'o' ∷ b'a' ∷ b't' ∷ []
to_string double = b'D' ∷ b'o' ∷ b'u' ∷ b'b' ∷ b'l' ∷ b'e' ∷ []
to_string int64 = b'I' ∷ b'n' ∷ b't' ∷ b'6' ∷ b'4' ∷ []
to_string float_list = b'F' ∷ b'l' ∷ b'o' ∷ b'a' ∷ b't' ∷ b'L' ∷ b'i' ∷ b's' ∷ b't' ∷ []

abbrev none_name : Bytes
none_name = b'N' ∷ b'o' ∷ b'n' ∷ b'e' ∷ []

unfoldable pub get_string : Reader → Bytes → Bytes → Answer Bytes
get_string r key default_value = do
  (str, is_exist, hash) ← r.get_internal key string
  if not is_exist
      then ok ((default_value, false), hash)
      else trim_extra_null_terminator str >>= λ trimmed. ok ((trimmed, true), hash)

-- The string of `getWithType` for a stored value.
abbrev pub shown : CacheValueType → Bytes → Result Bytes
shown string str = if is_empty str then ok str else trim_extra_null_terminator str
shown string_list str = ok []
shown _ str = ok str

unfoldable pub get_with_type : Reader → Bytes → Result ((Bytes × CacheValueType) × ℕ)
get_with_type r key = do
  ((str, type), hash) ← r.get_with_type_internal key
  str' ← shown type str
  ok ((str', type), hash)

abbrev pub bool_of : Bool → CacheValueType → Bytes → Bool × Bool
bool_of default_value bool str = (not (type_from_string 1 str == 0), true)
bool_of default_value int64 str = (not (type_from_string 8 str == 0), true)
bool_of default_value string str = (to_bool str, true)
bool_of default_value _ str = (default_value, false)

unfoldable pub get_bool : Reader → Bytes → Bool → Answer Bool
unfolding get_with_type
get_bool r key default_value = do
  ((str, type), hash) ← get_with_type r key
  ok (if is_empty str then (default_value, false) else bool_of default_value type str, hash)

abbrev pub int64_of : ℕ → CacheValueType → Bytes → ℕ × Bool
int64_of default_value int64 str = (type_from_string 8 str, true)
int64_of default_value string str = (to_long str, true)
int64_of default_value _ str = (default_value, false)

unfoldable pub get_int64 : Reader → Bytes → ℕ → Answer ℕ
unfolding get_with_type
get_int64 r key default_value = do
  ((str, type), hash) ← get_with_type r key
  ok (if is_empty str then (default_value, false) else int64_of default_value type str, hash)

abbrev by_strtod : DoubleParsers → Bytes → ℕ
by_strtod d str = let (result, end) = d.strtod str in if end == length str then result else 0

abbrev by_fast_float : DoubleParsers → Bytes → Option (ℕ × ℕ) → ℕ
by_fast_float d str none = by_strtod d str
by_fast_float d str (some (result, end)) = if end == length str then result else by_strtod d str

-- `StringUtils::toDoubleCompatible`
unfoldable pub to_double_compatible : DoubleParsers → Bytes → ℕ
to_double_compatible d str = if is_empty str then 0 else by_fast_float d str (d.fast_from_chars str)

abbrev pub double_of : DoubleParsers → ℕ → CacheValueType → Bytes → ℕ × Bool
double_of d default_value double str = (type_from_string 8 str, true)
double_of d default_value string str = (to_double_compatible d str, true)
double_of d default_value _ str = (default_value, false)

unfoldable pub get_double : DoubleParsers → Reader → Bytes → ℕ → Answer ℕ
unfolding get_with_type
get_double d r key default_value = do
  ((str, type), hash) ← get_with_type r key
  ok (if is_empty str then (default_value, false) else double_of d default_value type str, hash)

abbrev pub or_default {ℓ} : {A : Type ℓ} → List A → List A → List A
or_default default_value [] = default_value
or_default default_value (x ∷ xs) = x ∷ xs

-- `get`
unfoldable pub get_text : Reader → Bytes → Bytes → Result (Bytes × ℕ)
get_text r key default_value = do
  (str, _, hash) ← r.get_internal key string
  str' ← if is_empty str then ok str else trim_extra_null_terminator str
  ok (or_default default_value str', hash)

unfoldable pub get_vector : Reader → Bytes → List Bytes → Result (List Bytes × ℕ)
get_vector r key default_value = do
  (str, _, hash) ← r.get_internal key string_list
  values ← if is_empty str then ok default_value else string_list_from_string str
  ok (or_default default_value values, hash)

abbrev pub span_of : CacheValueType → Bytes → Result (List ℕ)
span_of string str = throw type_is_string
span_of float_list str = ok (floats_from_string str)
span_of _ str = ok []

unfoldable pub get_float_span : Reader → Bytes → Result (List ℕ × ℕ)
get_float_span r key = do
  ((str, type), hash) ← r.get_with_type_internal key
  span ← if is_empty str then ok [] else span_of type str
  ok (span, hash)

abbrev pub only_one : List Bytes → Bytes
only_one (value ∷ []) = value
only_one _ = []

abbrev pub key_of : CacheValueType → Bytes → Result Bytes
key_of string str = trim_extra_null_terminator str
key_of string_list str = string_list_from_string str >>= λ values. ok (only_one values)
key_of _ str = ok []

unfoldable pub read_key : Reader → Bytes → Result (Bytes × ℕ)
read_key r key = do
  ((str, type), hash) ← r.get_with_type_internal key
  value ← if is_empty str then ok [] else key_of type str
  ok (value, hash)

abbrev pub keys_of : CacheValueType → Bytes → Result (List Bytes)
keys_of string str = trim_extra_null_terminator str >>= λ value. ok (value ∷ [])
keys_of string_list str = string_list_from_string str
keys_of _ str = ok []

unfoldable pub read_keys : Reader → Bytes → Result (List Bytes × ℕ)
read_keys r key = do
  ((str, type), hash) ← r.get_with_type_internal key
  values ← if is_empty str then ok [] else keys_of type str
  ok (values, hash)

unfoldable pub get_key_type : Reader → Bytes → Result (Bytes × ℕ)
unfolding to_string
get_key_type r key = do
  ((str, type), hash) ← r.get_with_type_internal key
  let str_type = to_string type
  ok (if is_empty str then [] else if bytes_eq str_type none_name then [] else str_type, hash)
