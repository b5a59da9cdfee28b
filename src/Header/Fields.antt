-- ===== src/Header/Fields.antt =====
-- The fields of a cache file's header are read back
-- (src/axoncache/writer/detail/GenerateHeader.cpp).
use axon_cache.Prelude.{ℕ, ◌^◌, ◌<◌, ◌≡◌, sym, Bytes, ◌++◌, length, ok}
use axon_cache.Ram.{le}
use axon_cache.Ram.Encoding.{length-le, from_le-le}
use axon_cache.Convert.Laws.{split_bytes-append}
use axon_cache.Header.{CacheHeader, field, header_memory, header_of}

field-le : (w v : ℕ) (rest : Bytes) → v < 256 ^ w → field w (le w v ++ rest) ≡ ok (v, rest)
unfolding field
field-le w v rest h =
    rw (split_bytes-append (le w v) rest w (sym (length-le w v)), from_le-le w v h)

-- Fields that fit their types.
pub record IsHeader (h : CacheHeader) : Type 0 where
  pub magic_number : h.magic_number < 256 ^ 2
  pub header_size : h.header_size < 256 ^ 2
  pub name_start : h.name_start < 256 ^ 2
  pub version : h.version < 256 ^ 2
  pub cache_type : h.cache_type < 256 ^ 2
  pub hashcode_bits : h.hashcode_bits < 256 ^ 2
  pub offset_bits : h.offset_bits < 256 ^ 2
  pub hash_func_id : h.hash_func_id < 256 ^ 2
  pub reserved : h.reserved < 256 ^ 4
  pub max_collisions : h.max_collisions < 256 ^ 4
  pub max_load_factor : h.max_load_factor < 256 ^ 8
  pub creation_time_ms : h.creation_time_ms < 256 ^ 8
  pub number_of_key_slots : h.number_of_key_slots < 256 ^ 8
  pub number_of_entries : h.number_of_entries < 256 ^ 8
  pub data_size : h.data_size < 256 ^ 8
  pub size : h.size < 256 ^ 8
  pub name_size : length h.cache_name ≡ 32

pub header_of-header_memory : (h : CacheHeader) → IsHeader h → header_of (header_memory h) ≡ ok h
unfolding header_of header_memory
header_of-header_memory h i = rw (
  field-le 2 h.magic_number _ i.magic_number,
  field-le 2 h.header_size _ i.header_size,
  field-le 2 h.name_start _ i.name_start,
  field-le 2 h.version _ i.version,
  field-le 2 h.cache_type _ i.cache_type,
  field-le 2 h.hashcode_bits _ i.hashcode_bits,
  field-le 2 h.offset_bits _ i.offset_bits,
  field-le 2 h.hash_func_id _ i.hash_func_id,
  field-le 4 h.reserved _ i.reserved,
  field-le 4 h.max_collisions _ i.max_collisions,
  field-le 8 h.max_load_factor _ i.max_load_factor,
  field-le 8 h.creation_time_ms _ i.creation_time_ms,
  field-le 8 h.number_of_key_slots _ i.number_of_key_slots,
  field-le 8 h.number_of_entries _ i.number_of_entries,
  field-le 8 h.data_size _ i.data_size,
  field-le 8 h.size _ i.size,
)
