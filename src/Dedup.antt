-- ===== src/Dedup.antt =====
-- LinearProbeDedupCache (src/axoncache/cache/LinearProbeDedupCache.cpp,
-- include/axoncache/cache/LinearProbeDedupCache.h): frequent values are stored once, and records hold
-- their indices.
pub mod Values
pub mod Entries
pub mod Lookup
pub mod Record
pub mod Put
pub mod Found
pub mod Index
pub mod File
use axon_cache.Prelude.{
  ℕ, zero, suc, ◌+◌, ◌-◌, ◌*◌, ◌%◌, ◌^◌, Bool, true, false, not, ◌||◌, List, [], ◌∷◌, ◌++◌, Bytes,
  Option, none, some, length, bytes_eq, ltb, ◌==◌, if◌then◌else◌, u16, u32, u64, Result, ok, throw,
  undefined, diverges, on_ok, ◌>>=◌, too_many_duplicated_values, values_already_loaded,
  values_already_set, frequent_values_size_mismatch, data_size_mismatch,
}
use axon_cache.Ram.{Ram, load, copy, view, le}
use axon_cache.Domain.{CacheValueType, CacheType, linear_probe, string, type_code, cache_type_code}
use axon_cache.Memory.{Memory, new_malloc, grow}
use axon_cache.Probe.{Probe}
use axon_cache.Value
use axon_cache.Value.{get_from_slot, get_with_type_from_slot}
use axon_cache.Cache.{Cache, Hasher, put_with, probe_key}

-- `values` are the bytes of the views; `values_to_index` is the map of maps, by the values alone, since
-- the outer key is the value's size.
pub record DedupCache : Type 0 where
  pub cache : Cache
  pub values : List Bytes
  pub values_to_index : List (Bytes × ℕ)
  pub values_memory : Option Memory
  pub is_values_loaded : Bool
  pub cache_type : CacheType

unfoldable pub find_index : List (Bytes × ℕ) → Bytes → Option ℕ
find_index [] value = none
find_index ((v, index) ∷ entries) value =
    if bytes_eq v value then some index else find_index entries value

-- `emplace`, which keeps the entry that is there.
unfoldable pub emplace : List (Bytes × ℕ) → Bytes → ℕ → List (Bytes × ℕ)
unfolding find_index
emplace entries value index = elim (find_index entries value) [
  | none ↦ (value, index) ∷ entries
  | some _ ↦ entries
]

-- The first loop of `setDuplicatedValues`: the values one behind the other.
unfoldable pub grow_values : List Bytes → Memory → Result Memory
grow_values [] m = ok m
grow_values (value ∷ values) m = do
  (ptr, grown) ← grow (length value) m
  grow_values values (record grown { bytes = copy grown.bytes ptr value })

-- The second loop: a view of each value, and its first index.
unfoldable pub collect_values :
    Ram → ℕ → ℕ → List Bytes → List (Bytes × ℕ) → List Bytes × List (Bytes × ℕ)
unfolding emplace
collect_values m ptr index [] entries = ([], entries)
collect_values m ptr index (value ∷ values) entries =
    let v = view m ptr (length value) in
    let (vs, entries') =
      collect_values m (ptr + length value) (u16 (index + 1)) values (emplace entries v index) in
    (v ∷ vs, entries')

abbrev pub is_set : Option Memory → Bool
is_set none = false
is_set (some m) = true

-- `kMemoryCapcityBytes`
abbrev pub memory_capacity_bytes : ℕ
memory_capacity_bytes = 1024

-- `setDuplicatedValues`
unfoldable pub set_duplicated_values : List Bytes → DedupCache → Result (Unit {0}) × DedupCache
unfolding grow_values collect_values
set_duplicated_values values c =
    if ltb 65536 (length values)
    then (throw too_many_duplicated_values, c)
    else if c.is_values_loaded
    then (throw values_already_loaded, c)
    else if is_set c.values_memory
    then (throw values_already_set, c)
    else on_ok (grow_values values (new_malloc memory_capacity_bytes))
        (record c { values_memory = some (new_malloc memory_capacity_bytes) })
        λ memory.
          let (vs, entries) = collect_values memory.bytes 0 0 values [] in
          (ok tt, record c { values = vs; values_to_index = entries; values_memory = some memory })

-- The way in which `putInternal` adds a value: by its index if it is a frequent one.
unfoldable pub add_value :
    Hasher → Bytes → CacheValueType → Bytes → Probe → Option ℕ → ℕ → Memory → Result ℕ × Memory
add_value h key type value p none offset =
    Value.add p offset key (h.hash key) (type_code type) value
add_value h key type value p (some index) offset =
    Value.add_index p offset key (h.hash key) (type_code type) (u32 (length value)) (u16 index)

-- `putInternal`
unfoldable pub put_dedup :
    Hasher → Bytes → CacheValueType → Bytes → DedupCache → Result (Bool × ℕ) × DedupCache
unfolding add_value
put_dedup h key type value c =
    let index = find_index c.values_to_index value in
    let (r, cache) = put_with h key (add_value h key type value c.cache.probe index) c.cache in
    (r, record c { cache = cache })

-- `getInternal` with `isExists`, and with the hash
abbrev dedup_value :
    ℕ → CacheValueType → DedupCache → Ram × Option (ℕ × ℕ) → Result (Bytes × Bool × ℕ)
dedup_value hash type c (m, none) = ok ([], false, 0)
dedup_value hash type c (m, some (offset, slot)) =
    get_from_slot c.cache.probe m slot (type_code type) c.values >>= λ v. ok (v, true, hash)

unfoldable pub get_dedup : Hasher → Bytes → CacheValueType → DedupCache → Result (Bytes × Bool × ℕ)
get_dedup h key type c = probe_key h key c.cache >>= dedup_value (h.hash key) type c

abbrev dedup_value_with_type :
    ℕ → DedupCache → Ram × Option (ℕ × ℕ) → Result ((Bytes × CacheValueType) × ℕ)
dedup_value_with_type hash c (m, none) = ok (([], string), 0)
dedup_value_with_type hash c (m, some (offset, slot)) =
    get_with_type_from_slot c.cache.probe m slot c.values >>= λ v. ok (v, hash)

-- `getWithTypeInternal`
unfoldable pub get_dedup_with_type :
    Hasher → Bytes → DedupCache → Result ((Bytes × CacheValueType) × ℕ)
get_dedup_with_type h key c = probe_key h key c.cache >>= dedup_value_with_type (h.hash key) c

-- `getDuplicatedValues`
abbrev pub get_duplicated_values : DedupCache → List Bytes
get_duplicated_values c = c.values
