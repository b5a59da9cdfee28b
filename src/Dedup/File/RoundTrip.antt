-- ===== src/Dedup/File/RoundTrip.antt =====
-- The table of frequent values is written and read back
-- (src/axoncache/cache/LinearProbeDedupCache.cpp).
use axon_cache.Prelude.{
  ℕ, ◌+◌, ◌-◌, ◌*◌, ◌^◌, ◌≤◌, ◌<◌, ◌≡◌, refl, sym, ap, ◌∙◌, subst, true, false, List, [], ◌++◌,
  Bytes, length, length-append, Returns, Result, ok, u16, u64, ltb, ◌==◌, arith,
}
use axon_cache.Ram.{Ram, load, le}
use axon_cache.Ram.Encoding.{At, At-left, At-right, load-At, length-le}
use axon_cache.Memory.{Memory}
use axon_cache.Dedup.{DedupCache}
use axon_cache.Dedup.Values.{total, Stand}
use axon_cache.Dedup.File.{
  lengths_bytes, check_size, frequent_values_output, load_lengths, load_values, set_frequent_value,
}
use axon_cache.Dedup.File.Table.{
  concat, lengths_of, FitLengths, length-concat, length-lengths_bytes, load_lengths-At,
  load_values-At, Stand-concat, check_size-total,
}

unfoldable pub table_size : List Bytes → ℕ
table_size values = 2 + length values * 4 + total values + 8

unfoldable pub front : List Bytes → Bytes
front values = le 2 (length values) ++ (lengths_bytes values ++ concat values)

module _ (values : List Bytes) (some_values : 1 ≤ length values) (few : length values ≤ 65535)
    (small : total values < 2 ^ 62) (fit : FitLengths values) where
  pub output_table :
      (handler : Memory)
      → Stand handler.bytes 0 values
      → handler.data_size ≡ total values
      → frequent_values_output values handler
        ≡ (front values ++ le 8 (table_size values), ok (u64 (table_size values)))
  unfolding frequent_values_output table_size front
  output_table handler stand size =
      let count : u16 (length values) ≡ length values = omega arith in
      let checked : (check_size values == total values) ≡ true =
        ground (arith, check_size-total values (omega arith)) in
      let used : (length values == 0) ≡ false = ground arith in
      rw (count, size, used, checked, Stand-concat handler.bytes 0 values stand)

  length-front : length (front values) + 8 ≡ table_size values
  unfolding table_size front
  length-front = omega (
    arith,
    length-append (le 2 (length values)) (lengths_bytes values ++ concat values),
    length-le 2 (length values),
    length-append (lengths_bytes values) (concat values),
    length-lengths_bytes values,
    length-concat values,
  )

  module _ (c : DedupCache) (a : ℕ) (end : a + table_size values ≡ c.cache.memory.data_size)
      (addressable : c.cache.memory.data_size < 2 ^ 64) (empty : c.values ≡ [])
      (at : At c.cache.memory.bytes a (front values ++ le 8 (table_size values))) where
    abbrev bytes : Ram
    bytes = c.cache.memory.bytes

    offset_read : load 8 bytes (c.cache.memory.data_size - 8) ≡ table_size values
    unfolding table_size
    offset_read = load-At 8 bytes _ (table_size values) (omega arith) (
        At-right bytes a _ (front values) (le 8 (table_size values))
          (omega (arith, length-front, end)) at)

    At-front : At bytes a (front values)
    At-front = At-left bytes a (front values) (le 8 (table_size values)) at

    count_read : load 2 bytes a ≡ length values
    unfolding front
    count_read =
        load-At 2 bytes a (length values) (omega arith)
          (At-left bytes a (le 2 (length values)) (lengths_bytes values ++ concat values) At-front)

    At-lengths : At bytes (a + 2) (lengths_bytes values ++ concat values)
    unfolding front
    At-lengths =
        At-right bytes a (a + 2) (le 2 (length values)) (lengths_bytes values ++ concat values)
          (omega (arith, length-le 2 (length values))) At-front

    lengths_read : load_lengths bytes (length values) (a + 2) ≡ lengths_of values
    lengths_read =
        load_lengths-At bytes (a + 2) values fit
          (At-left bytes (a + 2) (lengths_bytes values) (concat values) At-lengths)

    At-values : At bytes (a + 2 + length values * 4) (concat values)
    At-values =
        At-right bytes (a + 2) _ (lengths_bytes values) (concat values)
          (omega (arith, length-lengths_bytes values)) At-lengths

    current : u64 (c.cache.memory.data_size + 2 ^ 64 - table_size values) ≡ a
    unfolding table_size
    current = omega (arith, end)

    long : ltb c.cache.memory.data_size 8 ≡ false
    unfolding table_size
    long = ground arith

    filled : (table_size values == 0) ≡ false
    unfolding table_size
    filled = ground arith

    reached : (a + 2 + length values * 4 + total values + 8 == c.cache.memory.data_size) ≡ true
    unfolding table_size
    reached = ground arith

    abbrev read_values : List Bytes × List (Bytes × ℕ) × ℕ
    read_values =
        load_values bytes (a + 2 + length values * 4) 0 (lengths_of values) c.values_to_index

    loaded :
        (c' : DedupCache) × (set_frequent_value c ≡ (ok tt, c'))
        × (c'.values ≡ values)
        × (c'.cache ≡ c.cache)
    unfolding set_frequent_value
    loaded =
        let (read, stop) =
          load_values-At bytes (a + 2 + length values * 4) 0 values c.values_to_index At-values in
        (
          record c {
            is_values_loaded = true;
            values = c.values ++ read_values.0;
            values_to_index = read_values.1;
          },
          rw (long, offset_read, filled, current, count_read, lengths_read, stop, reached),
          rw empty read,
          refl,
        )

-- For between 1 and 65535 frequent values, each of fewer than 2^32 bytes and all of fewer than 2^62
-- together, that stand one behind the other in the whole of their memory, `frequentValuesOutput` ends
-- normally with the number of bytes that it wrote. When the data of a cache that has no frequent
-- values yet ends with these bytes, `setFrequentValue` ends normally, reads the same values in the
-- same order, and changes nothing else of the cache below.
pub set_frequent_value-frequent_values_output :
    (values : List Bytes) (handler : Memory) (c : DedupCache) (a : ℕ)
    → 1 ≤ length values
    → length values ≤ 65535
    → total values < 2 ^ 62
    → FitLengths values
    → Stand handler.bytes 0 values
    → handler.data_size ≡ total values
    → a + length (frequent_values_output values handler).0 ≡ c.cache.memory.data_size
    → c.cache.memory.data_size < 2 ^ 64
    → c.values ≡ []
    → At c.cache.memory.bytes a (frequent_values_output values handler).0
    → Returns
        (frequent_values_output values handler).1
        (λ size. size ≡ length (frequent_values_output values handler).0)
      × ((c' : DedupCache) × (set_frequent_value c ≡ (ok tt, c'))
          × (c'.values ≡ values)
          × (c'.cache ≡ c.cache))
set_frequent_value-frequent_values_output values handler c a some_values few small fit stand size
      end addressable empty at =
    let table = output_table values some_values few small fit handler stand size in
    let whole : length (front values ++ le 8 (table_size values)) ≡ table_size values = omega (
      arith,
      length-append (front values) (le 8 (table_size values)),
      length-le 8 (table_size values),
      length-front values some_values few small fit,
    ) in
    let sized : length (frequent_values_output values handler).0 ≡ table_size values =
      ap (λ (t : Bytes × Result ℕ). length t.0) table ∙ whole in
    let ended : a + table_size values ≡ c.cache.memory.data_size = omega (arith, end, sized) in
    let at_table = subst (λ (t : Bytes × Result ℕ). At c.cache.memory.bytes a t.0) table at in
    let wrote : u64 (table_size values) ≡ table_size values = omega arith in
    (
      (u64 (table_size values), ap (λ (t : Bytes × Result ℕ). t.1) table, wrote ∙ sym sized),
      loaded values some_values few small fit c a ended addressable empty at_table,
    )
