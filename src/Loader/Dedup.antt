-- ===== src/Loader/Dedup.antt =====
-- A dedup cache that was written and loaded (src/axoncache/cache/LinearProbeDedupCache.cpp, output and
-- setFrequentValue, include/axoncache/loader/CacheOneTimeLoader.h).
use axon_cache.Prelude.{
  ℕ, ◌+◌, ◌-◌, ◌^◌, ◌≤◌, ◌<◌, ◌≡◌, ◌⊎◌, inl, inr, refl, sym, ap, ◌∙◌, subst, some, none, List, [],
  ◌++◌, Bytes, length, length-append, ok, arith, true, false, ◌==◌, Returns, ltb, Result,
}
use axon_cache.Ram.{load, view, le}
use axon_cache.Ram.Encoding.{At, load-At, length-le}
use axon_cache.Domain.{cache_type_code}
use axon_cache.Memory.{Memory}
use axon_cache.Header.{CacheHeader, new_header, write, c_string}
use axon_cache.Header.RoundTrip.{IsInfo}
use axon_cache.Cache.{Cache, Hasher}
use axon_cache.Cache.Models.{Models}
use axon_cache.Cache.Outcome.{Spec}
use axon_cache.Dedup.{DedupCache}
use axon_cache.Dedup.Lookup.{Answers}
use axon_cache.Dedup.Values.{total, Stand}
use axon_cache.Dedup.File.{frequent_values_output, output, set_frequent_value}
use axon_cache.Dedup.File.Table.{FitLengths}
use axon_cache.Dedup.File.RoundTrip.{output_table, set_frequent_value-frequent_values_output}
use axon_cache.Loader.{
  cache_info, write_dedup, open_cache, open_dedup, open_mmap, load_header, load_dedup,
  without_values,
}
use axon_cache.Loader.Names.{timestamp_of}
use axon_cache.Loader.Files.{length-view, Mapped, open_mmap-Mapped}
use axon_cache.Loader.Linear.{
  open_cache-Models, load_absolute_path_ok, load_header-write, header_size-write,
}

-- What `output` writes behind the data, and what the constructor reads from it.
pub record Ends (c : DedupCache) (table : Bytes) (wrote : ℕ) : Type 0 where
  pub written : output c ≡ (view c.cache.memory.bytes 0 c.cache.memory.data_size ++ table, ok wrote)
  pub read :
      (d : DedupCache) (a : ℕ)
      → a + length table ≡ d.cache.memory.data_size
      → d.cache.memory.data_size < 2 ^ 64
      → d.values ≡ []
      → At d.cache.memory.bytes a table
      → (d' : DedupCache) × (set_frequent_value d ≡ (ok tt, d'))
        × (d'.values ≡ c.values)
        × (d'.cache ≡ d.cache)

-- The frequent values that were set: between 1 and 65535, in the memory for them.
pub record AreSet (values : List Bytes) (handler : Memory) : Type 0 where
  pub some_values : 1 ≤ length values
  pub few : length values ≤ 65535
  pub small : total values < 2 ^ 62
  pub fit : FitLengths values
  pub stand : Stand handler.bytes 0 values
  pub size : handler.data_size ≡ total values

-- A dedup cache that was not loaded itself, without frequent values or with them.
pub record IsNew (c : DedupCache) : Type 0 where
  pub dedup : (cache_type_code c.cache_type == 3) ≡ false
  pub unloaded : c.is_values_loaded ≡ false
  pub memory :
      ((c.values_memory ≡ none) × (c.values ≡ []))
      ⊎ ((handler : Memory) × (c.values_memory ≡ some handler) × AreSet c.values handler)

-- Of a cache that was neither loaded nor asked to keep frequent values, it is a zero.
bare-Ends : (c : DedupCache) → IsNew c → c.values_memory ≡ none → c.values ≡ [] → Ends c (le 8 0) 8
unfolding output set_frequent_value
bare-Ends c new unset bare = record {
  written = rw (new.dedup, new.unloaded, unset) refl;
  read = λ d a end small empty at.
      let zero_read : load 8 d.cache.memory.bytes (d.cache.memory.data_size - 8) ≡ 0 =
        let place : d.cache.memory.data_size - 8 ≡ a = omega (arith, end, length-le 8 0) in
        ap (load 8 d.cache.memory.bytes) place
        ∙ load-At 8 d.cache.memory.bytes a 0 (omega arith) at in
      let long : ltb d.cache.memory.data_size 8 ≡ false =
        let sized = length-le 8 0 in ground arith in
      (record d { is_values_loaded = true }, rw (long, zero_read) refl, empty ∙ sym bare, refl);
}

-- Of a cache with frequent values, it is their table.
valued-Ends :
    (c : DedupCache) (handler : Memory)
    → IsNew c
    → c.values_memory ≡ some handler
    → AreSet c.values handler
    → Returns
        (frequent_values_output c.values handler).1
        (λ wrote. Ends c (frequent_values_output c.values handler).0 wrote)
unfolding output
valued-Ends c handler new set v =
    let table = output_table c.values v.some_values v.few v.small v.fit handler v.stand v.size in
    let bytes =
      view c.cache.memory.bytes 0 c.cache.memory.data_size
      ++ (frequent_values_output c.values handler).0 in
    (
      _,
      ap (λ (t : Bytes × Result ℕ). t.1) table,
      record {
        written =
            rw (new.dedup, new.unloaded, set) (ap (λ (t : Bytes × Result ℕ). (bytes, t.1)) table);
        read = λ d a end addressable empty at.
            (set_frequent_value-frequent_values_output c.values handler d a v.some_values v.few
              v.small v.fit v.stand v.size end addressable empty at).1;
      },
    )

new-Ends : (c : DedupCache) → IsNew c → (table : Bytes) × (wrote : ℕ) × Ends c table wrote
new-Ends c new = elim new.memory [
  | inl (unset, bare) ↦ (le 8 0, 8, bare-Ends c new unset bare)
  | inr (handler, set, v) ↦
      let (wrote, _, ends) = valued-Ends c handler new set v in (_, wrote, ends)
]

-- The loaded values are those of the records' indices.
Answers-loaded :
    (h : Hasher) (s : Spec) (c d : DedupCache)
    → (v : Answers h s c) → Models h v.entries d.cache
    → d.values ≡ c.values
    → Answers h s d
Answers-loaded h s c d v models same = record {
  entries = v.entries;
  models = models;
  agrees = λ k. rw same (v.agrees k);
}

open_dedup_ok :
    (info : CacheHeader) (m : Memory) (cache : Cache) (d : DedupCache)
    → open_cache info m ≡ ok cache
    → (info.cache_type == 3) ≡ false
    → set_frequent_value (without_values info cache) ≡ (ok tt, d)
    → open_dedup info m ≡ ok d
unfolding open_dedup
open_dedup_ok info m cache d made dedup read = rw (made, read, dedup) refl

module _ (h : Hasher) (s : Spec) (c : DedupCache) (version : ℕ) (name : Bytes) (now : ℕ)
    (buffer : Bytes) (v : Answers h s c) (new : IsNew c)
    (i : IsInfo (cache_info version c.cache_type c.cache) now) (b : length buffer ≡ 32) where
  abbrev header : Bytes
  header = write (cache_info version c.cache_type c.cache) name now buffer

  abbrev info : CacheHeader
  info = new_header (cache_info version c.cache_type c.cache) name now buffer

  abbrev table : Bytes
  table = (new-Ends c new).0

  open_dedup-Answers :
      (m : Memory)
      → Mapped header c.cache.memory.bytes c.cache.memory.data_size table m
      → m.data_size < 2 ^ 64
      → Returns (open_dedup info m) (Answers h s)
  unfolding open_dedup
  open_dedup-Answers m mapped small =
      let (cache, made, (models, _, _, same)) =
        open_cache-Models h v.entries c.cache version c.cache_type name now buffer header table m
          v.models mapped in
      let d : DedupCache = without_values info cache in
      let (_, wrote, ends) = new-Ends c new in
      let end : c.cache.memory.data_size + length table ≡ cache.memory.data_size =
        rw same (sym mapped.end) in
      let (d', read, values, kept) =
        ends.read d c.cache.memory.data_size end (rw same small) refl (rw same mapped.behind) in
      let dedup : (info.cache_type == 3) ≡ false = unfold new_header cache_info in new.dedup in
      (
        d',
        open_dedup_ok info m cache d' made dedup read,
        Answers-loaded h s c d' v (rw kept models) values,
      )

  abbrev file : Bytes
  file = (write_dedup version name now buffer c).0

  -- A dedup cache, without frequent values or with 1 to 65535 of them, that was written to a file and is
  -- loaded from it under the same version represents the same map, if the header's fields fit and the file
  -- has fewer than 2^64 bytes. The writing ends normally.
  pub load_dedup-write_dedup :
      (file_name : Bytes)
      → length file < 2 ^ 64
      → Returns (write_dedup version name now buffer c).1 (λ _. Unit {0})
        × Returns (load_dedup version file_name (some file) (some file)) (λ (c', _). Answers h s c')
  unfolding load_dedup write_dedup
  load_dedup-write_dedup file_name small =
      let (_, wrote, ends) = new-Ends c new in
      let first = view c.cache.memory.bytes 0 c.cache.memory.data_size in
      let bytes = first ++ table in
      let whole : file ≡ header ++ bytes =
        ap (λ (t : Bytes × Result ℕ). header ++ t.0) ends.written in
      let (m, run, mapped) =
        open_mmap-Mapped info header c.cache.memory.bytes c.cache.memory.data_size table
          (header_size-write c.cache version c.cache_type name now buffer i b)
          (omega (arith, v.models.above, v.models.probe.slots)) in
      let (c', made, answers) = open_dedup-Answers m mapped (
        omega (
          arith,
          mapped.end,
          small,
          ap (λ (t : Bytes). length t) whole,
          length-append header bytes,
          length-append first table,
          length-view c.cache.memory.bytes 0 c.cache.memory.data_size,
        )) in
      (
        (wrote, rw ends.written refl, tt),
        (
          (c', timestamp_of file_name),
          load_absolute_path_ok (λ _. ok tt) open_dedup version file_name file (c_string 31 name)
              info m c'
              (subst (λ (f : Bytes). load_header (some f) ≡ ok (c_string 31 name, info)) (sym whole)
                (load_header-write c.cache version c.cache_type name now buffer bytes i b))
              refl (subst (λ (f : Bytes). open_mmap info (some f) ≡ ok m) (sym whole) run) made
              (unfold new_header cache_info in refl),
          answers,
        ),
      )
