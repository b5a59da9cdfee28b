-- ===== src/Loader.antt =====
-- Cache files: written by CacheFileWriter (src/axoncache/writer/CacheFileWriter.cpp), mapped by
-- MmapMemoryHandler (src/axoncache/memory/MmapMemoryHandler.cpp), and loaded by CacheOneTimeLoader
-- (include/axoncache/loader/CacheOneTimeLoader.h, src/axoncache/loader/CacheOneTimeLoader.cpp) into
-- the caches' constructors over a header.
pub mod Files
pub mod Linear
pub mod Dedup
pub mod Names
use axon_cache.Prelude.{
  ℕ, zero, suc, ◌+◌, ◌-◌, ◌*◌, ◌^◌, Bool, true, false, not, ◌&&◌, ◌||◌, Option, none, some, List,
  [], ◌∷◌, ◌++◌, Bytes, length, leb, ◌==◌, if◌then◌else◌, u64, Result, ok, throw, undefined, guard,
  ◌>>=◌, ◌>>◌, could_not_open, empty_timestamp, is_empty, not_linear_probe_data, version_mismatch,
}
use axon_cache.Ram.{Ram, view}
use axon_cache.Domain.{
  CacheType, no_type, map_type, bucket_chain, linear_probe, linear_probe_dedup,
  linear_probe_dedup_typed, cache_type_code,
}
use axon_cache.Memory.{Memory, new_mmap}
use axon_cache.Header.{CacheHeader, CacheInfo, header_bytes, write, read}
use axon_cache.Probe.{Probe, new_probe, hashcode_bits, calculate_key_space_size}
use axon_cache.Cache.{Cache}
use axon_cache.Dedup.{DedupCache}
use axon_cache.Loader.Names.{timestamp_of}
use axon_cache.Dedup.File.{output, set_frequent_value}

-- What a cache reports to the writer of its header, with the library's version and the code of its
-- type. `hashFuncId` is that of XXH3.
unfoldable pub cache_info : ℕ → CacheType → Cache → CacheInfo
cache_info version type c = record {
  version = version;
  type = cache_type_code type;
  hashcode_bits = hashcode_bits c.probe;
  offset_bits = c.probe.offset_bits;
  hash_func_id = 2;
  max_collisions = c.max_collisions;
  max_load_factor = c.max_load_factor;
  number_of_key_slots = c.probe.number_of_key_slots;
  number_of_entries = c.number_of_entries;
  data_size = u64 (c.memory.data_size + 2 ^ 64 - u64 (c.probe.number_of_key_slots * 8));
  size = u64 (c.memory.data_size + header_bytes);
}

-- `write` of a linear probe cache: the header, then `output`. `now` is the clock, and `buffer` what
-- the name's characters held.
unfoldable pub write_linear : ℕ → Bytes → ℕ → Bytes → Cache → Bytes
unfolding cache_info
write_linear version name now buffer c =
    write (cache_info version linear_probe c) name now buffer
    ++ view c.memory.bytes 0 c.memory.data_size

-- `write` of a dedup cache: the bytes, and the exception of `output` if it throws.
unfoldable pub write_dedup : ℕ → Bytes → ℕ → Bytes → DedupCache → Bytes × Result ℕ
unfolding cache_info
write_dedup version name now buffer c =
    let (bytes, wrote) = output c in
    (write (cache_info version c.cache_type c.cache) name now buffer ++ bytes, wrote)

-- The bytes of a mapped file.
unfoldable pub byte_at : Bytes → Ram
byte_at [] a = 0
byte_at (b ∷ bs) zero = b
byte_at (b ∷ bs) (suc a) = byte_at bs a

-- `MmapMemoryHandler( header, file )`, over what `open`, `fstat` and `mmap` give, if they succeed. Else,
-- and if the file is not longer than the header says, the data pointer is computed from null.
unfoldable pub open_mmap : CacheHeader → Option Bytes → Result Memory
unfolding byte_at
open_mmap header none = undefined
open_mmap header (some file) =
    if leb (length file) header.header_size
    then undefined
    else ok (new_mmap header.header_size (length file) (byte_at file))

-- The constructor for a cache with a header. No entry can be put.
unfoldable pub open_cache : CacheHeader → Memory → Result Cache
open_cache header handler = do
  probe ← new_probe header.offset_bits header.number_of_key_slots
  ok (record {
    probe = probe;
    memory = handler;
    key_space_block = handler.block;
    max_number_of_entries = 0;
    max_load_factor = header.max_load_factor;
    number_of_entries = header.number_of_entries;
    max_collisions = header.max_collisions;
  })

-- `static_cast<CacheType>`; a number of no enumerator is none of those that the code tests for.
unfoldable pub cache_type_of : ℕ → CacheType
cache_type_of c =
    if c == 1
    then map_type
    else if c == 2
    then bucket_chain
    else if c == 3
    then linear_probe
    else if c == 4
    then linear_probe_dedup
    else if c == 5
    then linear_probe_dedup_typed
    else no_type

abbrev without_values : CacheHeader → Cache → DedupCache
unfolding cache_type_of
without_values header cache = record {
  cache = cache;
  values = [];
  values_to_index = [];
  values_memory = none;
  is_values_loaded = false;
  cache_type = cache_type_of header.cache_type;
}

-- The constructor of a dedup cache with a header.
unfoldable pub open_dedup : CacheHeader → Memory → Result DedupCache
unfolding open_cache cache_type_of
open_dedup header handler = do
  cache ← open_cache header handler
  let c = without_values header cache
  if header.cache_type == cache_type_code linear_probe
      then ok c
      else (let (r, loaded) = set_frequent_value c in r >>= λ _. ok loaded)

-- `loadHeader`
unfoldable pub load_header : Option Bytes → Result (Bytes × CacheHeader)
load_header none = throw could_not_open
load_header (some file) = do (named, rest) ← read file; ok named

-- The test that `loadAbsolutePath<LinearProbeCache>` makes.
unfoldable pub check_linear : CacheHeader → Result (Unit {0})
check_linear header =
    guard
      (header.cache_type == cache_type_code linear_probe_dedup
        || header.cache_type == cache_type_code linear_probe_dedup_typed)
      not_linear_probe_data

-- `loadAbsolutePath`, over the type of cache: the test for it, and its constructor. `file` is what the
-- stream reads of the file, `mapped` what the memory handler maps.
unfoldable pub load_absolute_path :
    {C : Type 0}
    → (CacheHeader → Result (Unit {0}))
    → (CacheHeader → Memory → Result C)
    → ℕ
    → Bytes
    → Option Bytes
    → Option Bytes
    → Result (C × Bytes)
unfolding open_mmap load_header
load_absolute_path check make_cache version file_name file mapped = do
  (name, header) ← load_header file
  check header
  memory ← open_mmap header mapped
  cache ← make_cache header memory
  guard (not (header.version == version)) version_mismatch
  ok (cache, timestamp_of file_name)

unfoldable pub load_linear : ℕ → Bytes → Option Bytes → Option Bytes → Result (Cache × Bytes)
unfolding load_absolute_path check_linear open_cache
load_linear = load_absolute_path check_linear open_cache

unfoldable pub load_dedup : ℕ → Bytes → Option Bytes → Option Bytes → Result (DedupCache × Bytes)
unfolding load_absolute_path open_dedup
load_dedup = load_absolute_path (λ _. ok tt) open_dedup
