-- ===== src/Copies.antt =====
-- CacheReader of the C interface (src/axoncache/capi/CacheReaderCApi.cpp): the reads of a loaded cache,
-- whose results are copied for the caller.
pub mod Reads
use axon_cache.Prelude.{
  sign_extended, ℕ, ◌-◌, ◌^◌, ◌%◌, Bool, true, false, not, ◌||◌, Option, none, some, List, [], ◌∷◌,
  ◌++◌, Bytes, length, map, leb, ◌==◌, Result, ok, undefined, ◌>>=◌, if◌then◌else◌,
}
use axon_cache.Domain.{
  bucket_chain, linear_probe, linear_probe_dedup, linear_probe_dedup_typed, cache_type_code,
}
use axon_cache.Typed.{
  Reader, DoubleParsers, get_string, get_bool, get_int64, get_double, get_vector, get_float_span,
  get_key_type, get_float_span, get_key_type,
}

-- What the reads call of a cache.
pub record Loaded : Type 0 where
  pub reader : Reader
  pub contains : Bytes → Result Bool

-- `CacheReader`; the type is the number that is cast to a CacheType.
pub record CacheReader : Type 0 where
  pub cache_type : ℕ
  pub linear_probe_cache : Option Loaded
  pub dedup_cache : Option Loaded
  pub bucket_chain_cache : Option Loaded

-- Where the `switch` on the type leads: to no case for it, to a null cache, or to a cache.
pub data Selected : Type 0 where
  not_supported : Selected
  no_cache : Selected
  selected : Loaded → Selected

abbrev pub loaded : Option Loaded → Selected
loaded none = no_cache
loaded (some cache) = selected cache

-- The `switch` of the reads that know linear probe caches.
unfoldable pub select_probe : CacheReader → Selected
select_probe r =
    if r.cache_type == cache_type_code linear_probe
    then loaded r.linear_probe_cache
    else if r.cache_type == cache_type_code linear_probe_dedup
        || r.cache_type == cache_type_code linear_probe_dedup_typed
    then loaded r.dedup_cache
    else not_supported

-- That of the reads that know bucket chain caches as well.
unfoldable pub select_any : CacheReader → Selected
unfolding select_probe
select_any r =
    if r.cache_type == cache_type_code bucket_chain
    then loaded r.bucket_chain_cache
    else select_probe r

-- `convertToPointer`: the copy with a NUL behind it and its size, or null; sizes are `int`s.
abbrev pub copied : Bytes → Option Bytes × ℕ
copied [] = (none, 0)
copied (c ∷ value) = (some ((c ∷ value) ++ (0 ∷ [])), length (c ∷ value) % 2 ^ 32)

abbrev pub copied_item : Bytes → Bytes × ℕ
copied_item value = (value ++ (0 ∷ []), length value % 2 ^ 32)

-- Of several views; null if there is none.
abbrev pub copied_list : List Bytes → List (Bytes × ℕ)
copied_list values = map copied_item values

-- `containsKey`
unfoldable pub contains_key : CacheReader → Option Bytes → Result Bool
unfolding select_any
contains_key r none = ok false
contains_key r (some key) = elim (select_any r) [
  | not_supported ↦ ok false
  | no_cache ↦ ok false
  | selected cache ↦ cache.contains key
]

-- `getKey`: the copy, its size and `isExist`.
unfoldable pub get_key : CacheReader → Option Bytes → Result ((Option Bytes × ℕ) × Bool)
unfolding select_any
get_key r none = ok ((none, 0), false)
get_key r (some key) = elim (select_any r) [
  | not_supported ↦ ok ((none, 0), false)
  | no_cache ↦ ok ((none, 0), false)
  | selected cache ↦
      get_string cache.reader key [] >>= λ ((value, is_exist), hash). ok (copied value, is_exist)
]

-- `items[index]` where `index` is below the size.
unfoldable pub item_at : List Bytes → ℕ → Option Bytes × ℕ
item_at [] index = (none, 0)
item_at (item ∷ items) index = if index == 0 then copied item else item_at items (index - 1)

-- `getVectorKeyItem`. A negative index passes the test and is used.
unfoldable pub get_vector_key_item : CacheReader → Option Bytes → ℕ → Result (Option Bytes × ℕ)
unfolding select_probe item_at
get_vector_key_item r none index = ok (none, 0)
get_vector_key_item r (some key) index = elim (select_probe r) [
  | not_supported ↦ ok (none, 0)
  | no_cache ↦ ok (none, 0)
  | selected cache ↦ get_vector cache.reader key [] >>= λ (items, hash).
      (if leb (2 ^ 31) index then undefined else ok (item_at items index))
]

-- `getVectorKeySize`
unfoldable pub get_vector_key_size : CacheReader → Option Bytes → Result ℕ
unfolding select_probe
get_vector_key_size r none = ok 0
get_vector_key_size r (some key) = elim (select_probe r) [
  | not_supported ↦ ok 0
  | no_cache ↦ ok 0
  | selected cache ↦ get_vector cache.reader key [] >>= λ (items, hash). ok (length items)
]

-- `getLong`: the value and `isExist`; an unsupported type answers 0 and not the default.
unfoldable pub get_long : CacheReader → Option Bytes → ℕ → Result (ℕ × Bool)
unfolding select_probe
get_long r none default_value = ok (default_value, false)
get_long r (some key) default_value = elim (select_probe r) [
  | not_supported ↦ ok (0, false)
  | no_cache ↦ ok (default_value, false)
  | selected cache ↦ get_int64 cache.reader key default_value >>= λ (answer, hash). ok answer
]

-- `getDouble`
unfoldable pub get_double_value : DoubleParsers → CacheReader → Option Bytes → ℕ → Result (ℕ × Bool)
unfolding select_probe
get_double_value parsers r none default_value = ok (default_value, false)
get_double_value parsers r (some key) default_value = elim (select_probe r) [
  | not_supported ↦ ok (0, false)
  | no_cache ↦ ok (default_value, false)
  | selected cache ↦
      get_double parsers cache.reader key default_value >>= λ (answer, hash). ok answer
]

-- `getBool`; the default is an `int`, which stands for true if it is not 0.
unfoldable pub get_flag : CacheReader → Option Bytes → ℕ → Result (ℕ × Bool)
unfolding select_probe
get_flag r none default_value = ok (default_value, false)
get_flag r (some key) default_value = elim (select_probe r) [
  | not_supported ↦ ok (0, false)
  | no_cache ↦ ok (default_value, false)
  | selected cache ↦
      get_bool cache.reader key (not (default_value == 0)) >>= λ ((value, is_exist), hash).
      ok (if value then 1 else 0, is_exist)
]

-- `getVector`
unfoldable pub get_vector_copy : CacheReader → Option Bytes → Result (List (Bytes × ℕ))
unfolding select_probe
get_vector_copy r none = ok []
get_vector_copy r (some key) = elim (select_probe r) [
  | not_supported ↦ ok []
  | no_cache ↦ ok []
  | selected cache ↦ get_vector cache.reader key [] >>= λ (items, hash). ok (copied_list items)
]

-- `getInteger`, which cuts the 64-bit integer to an `int`.
unfoldable pub get_integer : CacheReader → Option Bytes → ℕ → Result (ℕ × Bool)
unfolding select_probe
get_integer r none default_value = ok (default_value, false)
get_integer r (some key) default_value = elim (select_probe r) [
  | not_supported ↦ ok (0, false)
  | no_cache ↦ ok (default_value, false)
  | selected cache ↦
      get_int64 cache.reader key (sign_extended default_value) >>= λ ((value, is_exist), hash).
      ok (value % 2 ^ 32, is_exist)
]

-- `getFloatVector`: null for no floats.
unfoldable pub get_float_vector_copy : CacheReader → Option Bytes → Result (List ℕ)
unfolding select_probe
get_float_vector_copy r none = ok []
get_float_vector_copy r (some key) = elim (select_probe r) [
  | not_supported ↦ ok []
  | no_cache ↦ ok []
  | selected cache ↦ get_float_span cache.reader key >>= λ (values, hash). ok values
]

-- `getKeyType`
unfoldable pub get_key_type_copy : CacheReader → Option Bytes → Result (Option Bytes × ℕ)
unfolding select_probe
get_key_type_copy r none = ok (none, 0)
get_key_type_copy r (some key) = elim (select_probe r) [
  | not_supported ↦ ok (none, 0)
  | no_cache ↦ ok (none, 0)
  | selected cache ↦ get_key_type cache.reader key >>= λ (type, hash). ok (copied type)
]
