-- ===== src/Domain.antt =====
-- The types that the components share (include/axoncache/domain/CacheValue.h, CacheType.h,
-- Constants.h).
use axon_cache.Prelude.{ℕ, ◌-◌, ◌^◌, ◌==◌, if◌then◌else◌}

pub data CacheValueType : Type 0 where
  string : CacheValueType
  string_list : CacheValueType
  bool : CacheValueType
  int64 : CacheValueType
  double : CacheValueType
  int : CacheValueType
  float : CacheValueType
  float_list : CacheValueType

-- `static_cast<uint8_t>( type )`
abbrev pub type_code : CacheValueType → ℕ
type_code string = 0
type_code string_list = 1
type_code bool = 2
type_code int64 = 3
type_code double = 4
type_code int = 5
type_code float = 6
type_code float_list = 7

-- `static_cast<CacheValueType>( record->type )`; the bit field has three bits.
unfoldable pub value_type : ℕ → CacheValueType
value_type c =
    if c == 0
    then string
    else if c == 1
    then string_list
    else if c == 2
    then bool
    else if c == 3
    then int64
    else if c == 4
    then double
    else if c == 5
    then int
    else if c == 6
    then float
    else float_list

pub data CacheType : Type 0 where
  no_type : CacheType
  map_type : CacheType
  bucket_chain : CacheType
  linear_probe : CacheType
  linear_probe_dedup : CacheType
  linear_probe_dedup_typed : CacheType

abbrev pub cache_type_code : CacheType → ℕ
cache_type_code no_type = 0
cache_type_code map_type = 1
cache_type_code bucket_chain = 2
cache_type_code linear_probe = 3
cache_type_code linear_probe_dedup = 4
cache_type_code linear_probe_dedup_typed = 5

abbrev pub magic_number : ℕ
magic_number = 37460

abbrev pub min_offset_bits : ℕ
min_offset_bits = 16

abbrev pub max_offset_bits : ℕ
max_offset_bits = 38

abbrev pub max_cache_name_size : ℕ
max_cache_name_size = 32

abbrev pub key_length_limit : ℕ
key_length_limit = 2 ^ 16 - 1

abbrev pub vector_length_limit : ℕ
vector_length_limit = 2 ^ 16 - 1

abbrev pub vector_element_limit : ℕ
vector_element_limit = 2 ^ 16 - 1

abbrev pub value_length_limit : ℕ
value_length_limit = 2 ^ 24 - 1
