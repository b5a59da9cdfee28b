-- ===== src/Header.antt =====
-- The header of a cache file (include/axoncache/domain/CacheHeader.h,
-- src/axoncache/writer/detail/GenerateHeader.cpp). The `double` is its bit pattern.
pub mod Fields
pub mod Name
pub mod RoundTrip
use axon_cache.Prelude.{
  ℕ, zero, suc, ◌+◌, ◌-◌, Bool, not, ltb, ◌==◌, if◌then◌else◌, List, [], ◌∷◌, ◌++◌, Bytes, length,
  min, Result, ok, throw, undefined, guard, ◌>>=◌, ◌>>◌, malformed_cache,
}
use axon_cache.Ram.{le, from_le}
use axon_cache.Domain.{magic_number, max_cache_name_size}
use axon_cache.Convert.{split_bytes}

-- `CacheHeader_s`, with the 32 characters of the name.
pub record CacheHeader : Type 0 where
  pub magic_number : ℕ
  pub header_size : ℕ
  pub name_start : ℕ
  pub version : ℕ
  pub cache_type : ℕ
  pub hashcode_bits : ℕ
  pub offset_bits : ℕ
  pub hash_func_id : ℕ
  pub reserved : ℕ
  pub max_collisions : ℕ
  pub max_load_factor : ℕ
  pub creation_time_ms : ℕ
  pub number_of_key_slots : ℕ
  pub number_of_entries : ℕ
  pub data_size : ℕ
  pub size : ℕ
  pub cache_name : Bytes

-- `sizeof( CacheHeader )` and `offsetof( CacheHeader, cacheName )`
abbrev pub header_bytes : ℕ
header_bytes = 104

abbrev pub name_offset : ℕ
name_offset = 72

-- What the header takes from the cache, by its virtual functions.
pub record CacheInfo : Type 0 where
  pub version : ℕ
  pub type : ℕ
  pub hashcode_bits : ℕ
  pub offset_bits : ℕ
  pub hash_func_id : ℕ
  pub max_collisions : ℕ
  pub max_load_factor : ℕ
  pub number_of_key_slots : ℕ
  pub number_of_entries : ℕ
  pub data_size : ℕ
  pub size : ℕ

-- At most `n` characters of a string, up to its terminator.
unfoldable pub c_string : ℕ → Bytes → Bytes
c_string zero str = []
c_string (suc n) [] = []
c_string (suc n) (c ∷ str) = if c == 0 then [] else c ∷ c_string n str

-- The bytes of a buffer behind the first `n`.
unfoldable pub behind_first : ℕ → Bytes → Bytes
behind_first zero buffer = buffer
behind_first (suc n) [] = []
behind_first (suc n) (b ∷ buffer) = behind_first n buffer

-- `snprintf( buffer, min( cacheName.size() + 1, 32 ), "%s", cacheName.data() )`: the rest of the buffer
-- keeps what it held.
unfoldable pub print_name : Bytes → Bytes → Bytes
unfolding c_string behind_first
print_name cache_name buffer =
    let printed = c_string (min (length cache_name + 1) max_cache_name_size - 1) cache_name in
    printed ++ (0 ∷ behind_first (length printed + 1) buffer)

-- The object in memory.
unfoldable pub header_memory : CacheHeader → Bytes
header_memory h =
    le 2 h.magic_number
    ++ (le 2 h.header_size
        ++ (le 2 h.name_start
            ++ (le 2 h.version
                ++ (le 2 h.cache_type
                    ++ (le 2 h.hashcode_bits
                        ++ (le 2 h.offset_bits
                            ++ (le 2 h.hash_func_id
                                ++ (le 4 h.reserved
                                    ++ (le 4 h.max_collisions
                                        ++ (le 8 h.max_load_factor
                                            ++ (le 8 h.creation_time_ms
                                                ++ (le 8 h.number_of_key_slots
                                                    ++ (le 8 h.number_of_entries
                                                        ++ (le 8 h.data_size
                                                            ++ (le 8 h.size
                                                            ++ h.cache_name)))))))))))))))

-- The header that `write` fills, at the time `now`; `buffer` is what the name's characters held.
unfoldable pub new_header : CacheInfo → Bytes → ℕ → Bytes → CacheHeader
unfolding print_name
new_header info cache_name now buffer = record {
  magic_number = magic_number;
  header_size = header_bytes;
  name_start = name_offset;
  version = info.version;
  cache_type = info.type;
  hashcode_bits = info.hashcode_bits;
  offset_bits = info.offset_bits;
  hash_func_id = info.hash_func_id;
  reserved = 0;
  max_collisions = info.max_collisions;
  max_load_factor = info.max_load_factor;
  creation_time_ms = now;
  number_of_key_slots = info.number_of_key_slots;
  number_of_entries = info.number_of_entries;
  data_size = info.data_size;
  size = info.size;
  cache_name = print_name cache_name buffer;
}

-- `write`: the bytes that go to the output
unfoldable pub write : CacheInfo → Bytes → ℕ → Bytes → Bytes
unfolding header_memory new_header
write info cache_name now buffer = header_memory (new_header info cache_name now buffer)

-- A little-endian field of the object, and what lies behind it.
unfoldable pub field : ℕ → Bytes → Result (ℕ × Bytes)
field w bytes = do (v, rest) ← split_bytes w bytes; ok (from_le v, rest)

unfoldable pub header_of : Bytes → Result CacheHeader
unfolding field
header_of bytes = do
  (magic_number, r) ← field 2 bytes
  (header_size, r) ← field 2 r
  (name_start, r) ← field 2 r
  (version, r) ← field 2 r
  (cache_type, r) ← field 2 r
  (hashcode_bits, r) ← field 2 r
  (offset_bits, r) ← field 2 r
  (hash_func_id, r) ← field 2 r
  (reserved, r) ← field 4 r
  (max_collisions, r) ← field 4 r
  (max_load_factor, r) ← field 8 r
  (creation_time_ms, r) ← field 8 r
  (number_of_key_slots, r) ← field 8 r
  (number_of_entries, r) ← field 8 r
  (data_size, r) ← field 8 r
  (size, r) ← field 8 r
  ok (record {
    magic_number = magic_number;
    header_size = header_size;
    name_start = name_start;
    version = version;
    cache_type = cache_type;
    hashcode_bits = hashcode_bits;
    offset_bits = offset_bits;
    hash_func_id = hash_func_id;
    reserved = reserved;
    max_collisions = max_collisions;
    max_load_factor = max_load_factor;
    creation_time_ms = creation_time_ms;
    number_of_key_slots = number_of_key_slots;
    number_of_entries = number_of_entries;
    data_size = data_size;
    size = size;
    cache_name = r;
  })

-- The loop over at most `n` characters of the name; past the object it is undefined behaviour.
unfoldable pub name_loop : ℕ → Bytes → Result Bytes
name_loop zero bytes = ok []
name_loop (suc n) [] = undefined
name_loop (suc n) (c ∷ bytes) = do
  rest ← if c == 0 then ok [] else name_loop n bytes
  ok (if c == 0 then [] else c ∷ rest)

-- `read`: the name and the header, and what is left of the input. `headerSize - nameStart` is an
-- `int`, so that a negative difference is not 32 either.
unfoldable pub read : Bytes → Result ((Bytes × CacheHeader) × Bytes)
unfolding header_of name_loop behind_first
read input = do
  guard (ltb (length input) header_bytes) malformed_cache
  (bytes, rest) ← split_bytes header_bytes input
  info ← header_of bytes
  guard (not (info.header_size == info.name_start + max_cache_name_size)) malformed_cache
  cache_name ← name_loop max_cache_name_size (behind_first info.name_start bytes)
  ok ((cache_name, info), rest)
