-- ===== src/Dedup/File.antt =====
-- The table of frequent values behind the data of a dedup cache's file: written by `output`, read by
-- `setFrequentValue` (src/axoncache/cache/LinearProbeDedupCache.cpp). Reads go to the file's bytes.
pub mod Table
pub mod RoundTrip
use axon_cache.Prelude.{
  ℕ, zero, suc, ◌+◌, ◌-◌, ◌*◌, ◌%◌, ◌^◌, Bool, true, false, not, ◌||◌, List, [], ◌∷◌, ◌++◌, Bytes,
  Option, none, some, length, ltb, ◌==◌, if◌then◌else◌, u16, u32, u64, Result, ok, throw, undefined,
  frequent_values_size_mismatch, data_size_mismatch,
}
use axon_cache.Ram.{Ram, load, view, le}
use axon_cache.Domain.{linear_probe, cache_type_code}
use axon_cache.Memory.{Memory}
use axon_cache.Dedup.{DedupCache, emplace}

unfoldable pub lengths_bytes : List Bytes → Bytes
lengths_bytes [] = []
lengths_bytes (value ∷ values) = le 4 (u32 (length value)) ++ lengths_bytes values

-- `checkSize`
unfoldable pub check_size : List Bytes → ℕ
check_size [] = 0
check_size (value ∷ values) = u64 (length value + check_size values)

-- `frequentValuesOutput`: the bytes that are written, and the number of them or the exception, which
-- comes after the values are written and before the offset is.
unfoldable pub frequent_values_output : List Bytes → Memory → Bytes × Result ℕ
unfolding lengths_bytes check_size
frequent_values_output values handler =
    let top_value_count = u16 (length values) in
    let table =
      le 2 top_value_count ++ (lengths_bytes values ++ view handler.bytes 0 handler.data_size) in
    let value_offset = 2 + top_value_count * 4 + handler.data_size + 8 in
    if top_value_count == 0
    then (le 8 0, ok 8)
    else if not (check_size values == handler.data_size)
    then (table, throw frequent_values_size_mismatch)
    else (table ++ le 8 value_offset, ok (u64 value_offset))

abbrev table_output : List Bytes → Option Memory → Bytes × Result ℕ
table_output values none = (le 8 0, ok 8)
table_output values (some handler) = frequent_values_output values handler

-- `output`: the bytes that are written; the exception is that of the table.
unfoldable pub output : DedupCache → Bytes × Result ℕ
output c =
    let memory = c.cache.memory in
    let bytes = view memory.bytes 0 memory.data_size in
    if (cache_type_code c.cache_type == cache_type_code linear_probe) || c.is_values_loaded
    then (bytes, ok memory.data_size)
    else (let (table, wrote) = table_output c.values c.values_memory in (bytes ++ table, wrote))

unfoldable pub load_lengths : Ram → ℕ → ℕ → List ℕ
load_lengths m zero a = []
load_lengths m (suc n) a = load 4 m a ∷ load_lengths m n (a + 4)

-- The loop over the values; `index` is a `uint8_t`. The last component is the offset that it ends at.
unfoldable pub load_values :
    Ram → ℕ → ℕ → List ℕ → List (Bytes × ℕ) → List Bytes × List (Bytes × ℕ) × ℕ
unfolding emplace
load_values m current index [] entries = ([], entries, current)
load_values m current index (len ∷ lengths) entries =
    let v = view m current len in
    let (vs, entries', end) =
      load_values m (current + len) ((index + 1) % 2 ^ 8) lengths (emplace entries v index) in
    (v ∷ vs, entries', end)

-- `setFrequentValue`
unfoldable pub set_frequent_value : DedupCache → Result (Unit {0}) × DedupCache
unfolding load_lengths load_values
set_frequent_value c =
    let m = c.cache.memory in
    let value_offset = load 8 m.bytes (m.data_size - 8) in
    let current = u64 (m.data_size + 2 ^ 64 - value_offset) in
    let count = load 2 m.bytes current in
    let lengths = load_lengths m.bytes count (current + 2) in
    let (values, entries, end) =
      load_values m.bytes (current + 2 + count * 4) 0 lengths c.values_to_index in
    if ltb m.data_size 8
    then (undefined, record c { is_values_loaded = true })
    else if value_offset == 0
    then (ok tt, record c { is_values_loaded = true })
    else (
      if not (end + 8 == m.data_size) then throw data_size_mismatch else ok tt,
      record c { is_values_loaded = true; values = c.values ++ values; values_to_index = entries },
    )
