-- ===== src/Loader/Linear.antt =====
-- A linear probe cache that was written and loaded (src/axoncache/writer/CacheFileWriter.cpp,
-- include/axoncache/loader/CacheOneTimeLoader.h).
use axon_cache.Prelude.{
  Result, ℕ, ◌≡◌, refl, sym, some, [], ◌++◌, Bytes, length, ok, throw, arith, Returns,
  key_space_is_full,
}
use mathlib.Core.List.{append-nil}
use axon_cache.Ram.{view}
use axon_cache.Domain.{CacheValueType, CacheType, linear_probe}
use axon_cache.Memory.{Memory}
use axon_cache.Header.{CacheHeader, new_header, write, c_string}
use axon_cache.Header.RoundTrip.{IsInfo, read-write, length-write}
use axon_cache.Probe.{new_probe}
use axon_cache.Cache.{Cache, Hasher, put_internal, put_with}
use axon_cache.Cache.Models.{Map, Models}
use axon_cache.Cache.Outcome.{Spec, Refines, records}
use axon_cache.Loader.{
  cache_info, write_linear, open_cache, open_mmap, check_linear, load_header, load_absolute_path,
  load_linear,
}
use axon_cache.Loader.Names.{timestamp_of}
use axon_cache.Loader.Files.{Mapped, open_mmap-Mapped, Represents-Agree}

-- The constructor accepts a header that came from a cache, and the cache represents the same map.
pub open_cache-Models :
    (h : Hasher) (f : Map) (c : Cache) (version : ℕ) (type : CacheType) (name : Bytes) (now : ℕ)
    (buffer : Bytes) (header rest : Bytes) (m : Memory)
    → Models h f c
    → Mapped header c.memory.bytes c.memory.data_size rest m
    → Returns (open_cache (new_header (cache_info version type c) name now buffer) m) (λ c'.
      Models h f c'
      × (c'.number_of_entries ≡ c.number_of_entries)
      × (c'.max_number_of_entries ≡ 0)
      × (c'.memory ≡ m))
unfolding open_cache new_header cache_info new_probe
open_cache-Models h f c version type name now buffer header rest m v mapped = (
  record {
    probe = c.probe;
    memory = m;
    key_space_block = m.block;
    max_number_of_entries = 0;
    max_load_factor = c.max_load_factor;
    number_of_entries = c.number_of_entries;
    max_collisions = c.max_collisions;
  },
  ground (arith, v.probe.enough_bits, v.probe.few_bits),
  (
    record {
      rep =
          Represents-Agree h f c.probe c.memory.bytes m.bytes c.memory.data_size m.data_size
            c.number_of_entries v.rep (omega (arith, mapped.end)) mapped.copied;
      fresh = refl;
    },
    refl,
    refl,
    refl,
  ),
)

-- When every step of the loader returns, so does the loader.
pub load_absolute_path_ok :
    {C : Type 0} (check : CacheHeader → Result (Unit {0}))
    (make_cache : CacheHeader → Memory → Result C) (version : ℕ) (file_name file name : Bytes)
    (info : CacheHeader) (m : Memory) (c : C)
    → load_header (some file) ≡ ok (name, info)
    → check info ≡ ok tt
    → open_mmap info (some file) ≡ ok m
    → make_cache info m ≡ ok c
    → info.version ≡ version
    → load_absolute_path check make_cache version file_name (some file) (some file)
      ≡ ok (c, timestamp_of file_name)
unfolding load_absolute_path
load_absolute_path_ok check make_cache version file_name file name info m c read checked mapped made
      same =
    rw (read, checked, mapped, made) (ground (arith, same))

-- The header of a written file is read from it.
pub load_header-write :
    (c : Cache) (version : ℕ) (type : CacheType) (name : Bytes) (now : ℕ) (buffer rest : Bytes)
    → IsInfo (cache_info version type c) now
    → length buffer ≡ 32
    → load_header (some (write (cache_info version type c) name now buffer ++ rest))
      ≡ ok (c_string 31 name, new_header (cache_info version type c) name now buffer)
unfolding load_header
load_header-write c version type name now buffer rest i b =
    rw (read-write (cache_info version type c) name now buffer rest i b) refl

pub header_size-write :
    (c : Cache) (version : ℕ) (type : CacheType) (name : Bytes) (now : ℕ) (buffer : Bytes)
    → IsInfo (cache_info version type c) now
    → length buffer ≡ 32
    → (new_header (cache_info version type c) name now buffer).header_size
      ≡ length (write (cache_info version type c) name now buffer)
unfolding new_header
header_size-write c version type name now buffer i b =
    sym (length-write (cache_info version type c) name now buffer i b)

-- A cache that takes no entries refuses each put.
pub put_internal_closed :
    (h : Hasher) (c : Cache)
    → c.max_number_of_entries ≡ 0
    → (key : Bytes) (type : CacheValueType) (value : Bytes)
    → put_internal h key type value c ≡ (throw key_space_is_full, c)
unfolding put_internal put_with
put_internal_closed h c closed key type value = ground (arith, closed)

-- A linear probe cache that was written to a file and is loaded from it under the same version represents
-- the same map with the same number of entries, so that every lookup answers alike, if the header's fields
-- fit; each put to the loaded cache throws and leaves it as it is.
pub load_linear-write_linear :
    (h : Hasher) (s : Spec) (c : Cache) (version : ℕ) (name : Bytes) (now : ℕ)
    (buffer file_name : Bytes)
    → Refines h s c
    → IsInfo (cache_info version linear_probe c) now
    → length buffer ≡ 32
    → Returns
        (load_linear version file_name
          (some (write_linear version name now buffer c))
          (some (write_linear version name now buffer c)))
        (λ (c', timestamp).
          Refines h s c'
          × (c'.number_of_entries ≡ c.number_of_entries)
          × ((key : Bytes) (type : CacheValueType) (value : Bytes)
              → put_internal h key type value c' ≡ (throw key_space_is_full, c')))
unfolding load_linear write_linear
load_linear-write_linear h s c version name now buffer file_name v i b =
    let header = write (cache_info version linear_probe c) name now buffer in
    let info = new_header (cache_info version linear_probe c) name now buffer in
    let bytes = view c.memory.bytes 0 c.memory.data_size in
    let (m, run, mapped) =
      open_mmap-Mapped info header c.memory.bytes c.memory.data_size []
        (header_size-write c version linear_probe name now buffer i b)
        (omega (arith, v.above, v.probe.slots)) in
    let (c', made, (refines, entries, closed, _)) =
      open_cache-Models h (records s) c version linear_probe name now buffer header [] m v mapped in
    (
      (c', timestamp_of file_name),
      load_absolute_path_ok check_linear open_cache version file_name (header ++ bytes)
          (c_string 31 name) info m c'
          (load_header-write c version linear_probe name now buffer bytes i b)
          (unfold check_linear new_header cache_info in refl) (rw (append-nil bytes) at run) made
          (unfold new_header cache_info in refl),
      (refines, entries, put_internal_closed h c' closed),
    )
