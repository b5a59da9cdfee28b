-- ===== src/Dedup/Put.antt =====
-- `putInternal` of a dedup cache (src/axoncache/cache/LinearProbeDedupCache.cpp): the value by its
-- index if it is a frequent one, and the map with the new binding.
use axon_cache.Prelude.{
  ℕ, ◌+◌, ◌^◌, ◌≤◌, ◌<◌, ◌≡◌, refl, inl, inr, Option, none, some, Bytes, ok, true, false, arith,
  length, bytes_eq, u32, Bool-cases, Option-cases, Result, Bool, max, eq-bytes_eq,
}
use axon_cache.Domain.{CacheValueType, key_length_limit, value_length_limit}
use axon_cache.Memory.{Memory}
use axon_cache.Table.{Entry}
use axon_cache.Value.Slot.{offset_of}
use axon_cache.Value.Add.{entry_size, CanGrow, Added}
use axon_cache.Cache.{Hasher}
use axon_cache.Cache.Models.{IsWritable}
use axon_cache.Cache.Put.{insert}
use axon_cache.Cache.Step.{
  steps, offset, stored_cache, put_with_old, put_with_stored, stored-Models, stored-IsWritable,
}
use axon_cache.Cache.Outcome.{Spec, put_spec}
use axon_cache.Dedup.{DedupCache, find_index, add_value, put_dedup}
use axon_cache.Dedup.Entries.{Means, as_value, as_index}
use axon_cache.Dedup.Lookup.{Agrees, Holds, record_of}
use axon_cache.Dedup.Record.{
  entry_for, add_value-Added, entry_for-IsEntry, StoredAs, by_index, by_value,
}

-- How a `putInternal` of a dedup cache with a spare entry ends.
pub data Outcome (h : Hasher) (s : Spec) (key : Bytes) (type : CacheValueType) (value : Bytes)
    (c : DedupCache) (r : Result (Bool × ℕ) × DedupCache) : Type 0 where
  exists :
      (old : CacheValueType × Bytes) (collisions : ℕ)
      → s key ≡ some old
      → r ≡ (ok (false, collisions), c)
      → Outcome h s key type value c r
  stored :
      (collisions : ℕ) (c' : DedupCache)
      → s key ≡ none
      → r ≡ (ok (true, collisions), c')
      → (holds : Holds h (put_spec s key type value) c') (e : Entry)
      → StoredAs c.values key type value e
      → holds.entries key ≡ some e
      → c'.cache.memory.data_size ≡ c.cache.memory.data_size + entry_size e
      → (c'.values ≡ c.values) × (c'.values_to_index ≡ c.values_to_index)
      → IsWritable c'.cache
      → c'.cache.number_of_entries ≡ c.cache.number_of_entries + 1
      → Outcome h s key type value c r

module _ (h : Hasher) (s : Spec) (c : DedupCache) (v : Holds h s c) (w : IsWritable c.cache)
    (key : Bytes) (type : CacheValueType) (value : Bytes) where
  abbrev index : Option ℕ
  index = find_index c.values_to_index value

  abbrev entry : Entry
  entry = entry_for key type value index

  index-small : (i : ℕ) → index ≡ some i → i < 65536
  index-small i at = (v.indexed value i at).0

  Means-entry : Means c.values type value entry
  Means-entry = elim (Option-cases index) [
    | inl e ↦ rw e (as_value key)
    | inr (i, e) ↦ let (small, at) = v.indexed value i e in rw e (as_index key i _ small at)
  ]

  StoredAs-entry : StoredAs c.values key type value entry
  StoredAs-entry = elim (Option-cases index) [
    | inl e ↦ rw e (by_value λ i at. let (j, found) = v.complete value i at in cc (e, found))
    | inr (i, e) ↦ let (small, at) = v.indexed value i e in rw e (by_index i small at)
  ]

  insert-key : insert v.entries entry key ≡ some entry
  insert-key = rw (eq-bytes_eq key key refl) refl

  Agrees-insert :
      (k : Bytes) → Agrees c.values (put_spec s key type value k) (insert v.entries entry k)
  Agrees-insert k = elim (Bool-cases (bytes_eq k key)) [
    | inl same ↦ rw same (record_of type value entry Means-entry)
    | inr other ↦ rw other (v.agrees k)
  ]

  module _ (spare : c.cache.number_of_entries < c.cache.max_number_of_entries) where
    put_dedup-old :
        (e : Entry)
        → v.entries key ≡ some e
        → put_dedup h key type value c
          ≡ (ok (false, u32 (steps h v.entries c.cache v.models key + 1)), c)
    unfolding put_dedup
    put_dedup-old e at =
        rw
          (put_with_old h v.entries c.cache v.models key
            (add_value h key type value c.cache.probe index) spare e at)
          refl

    module _ (new : v.entries key ≡ none) (room : CanGrow c.cache.memory entry)
        (short_key : length key ≤ key_length_limit)
        (short : index ≡ none → length value ≤ value_length_limit)
        (fits : offset_of c.cache.probe c.cache.memory.data_size
          < 2 ^ c.cache.probe.offset_bits) where
      added :
          (s' : Memory) × (add_value h key type value c.cache.probe index
              (offset h v.entries c.cache v.models w entry)
              c.cache.memory
            ≡ (ok 0, s'))
          × Added c.cache.probe
              (offset h v.entries c.cache v.models w entry)
              (h.hash key)
              c.cache.memory
              entry
              s'
      added =
          add_value-Added h key type value c.cache.probe v.models.probe c.cache.memory _ short_key
            v.models.above fits index short index-small room

      Outcome-new : s key ≡ none → Outcome h s key type value c (put_dedup h key type value c)
      unfolding put_dedup
      Outcome-new free =
          let (m, run, a) = added in
          let cache = stored_cache h v.entries c.cache v.models key m in
          stored (max (u32 (steps h v.entries c.cache v.models key)) 0) (record c { cache = cache })
            free (rw (put_with_stored h v.entries c.cache v.models w entry new spare m _ run) refl)
            (record {
              answers = record {
                entries = insert v.entries entry;
                models =
                    stored-Models h v.entries c.cache v.models w entry new spare m
                      (entry_for-IsEntry key type value index short_key short)
                      (omega (arith, room.no_wrap)) fits a;
                agrees = Agrees-insert;
              };
              indexed = v.indexed;
              complete = v.complete;
            })
            entry StoredAs-entry insert-key a.size (refl, refl)
            (stored-IsWritable h v.entries c.cache v.models w entry new spare m a)
            (omega (arith, v.models.room, v.models.probe.addressable))

    -- On a dedup cache that holds a map, has a spare entry and can grow, with a key and a value within
    -- their limits (a value that the index has needs none) and an offset that fits its bits, `putInternal`
    -- either reports an existing key and changes nothing, or returns true, for a key that the map lacks:
    -- the record of the key then holds the index of the value if it is one of the frequent values, and the
    -- value itself if it is none, the data has grown by this record, the cache holds the map with that
    -- binding and the same frequent values, has one entry more, and is still writable.
    pub put_dedup-Outcome :
        CanGrow c.cache.memory entry
        → length key ≤ key_length_limit
        → (index ≡ none → length value ≤ value_length_limit)
        → offset_of c.cache.probe c.cache.memory.data_size < 2 ^ c.cache.probe.offset_bits
        → Outcome h s key type value c (put_dedup h key type value c)
    put_dedup-Outcome room short_key short fits =
        go (s key) (v.entries key) refl refl (v.agrees key)
      where
        go :
            (o : Option (CacheValueType × Bytes)) (e : Option Entry)
            → s key ≡ o
            → v.entries key ≡ e
            → Agrees c.values o e
            → Outcome h s key type value c (put_dedup h key type value c)
        go none none free new _ = Outcome-new new room short_key short fits free
        go none (some _) _ _ x = elim x [ ]
        go (some _) none _ _ x = elim x [ ]
        go (some old) (some e) at here _ = exists old _ at (put_dedup-old e here)
