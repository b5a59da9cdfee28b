-- ===== src/Dedup/Lookup.antt =====
-- The lookups of a dedup cache (src/axoncache/cache/LinearProbeDedupCache.cpp, getInternal and
-- getWithTypeInternal).
use axon_cache.Prelude.{
  ℕ, ◌<◌, ◌≡◌, refl, ◌∙◌, Option, none, some, List, Bytes, ok, arith, get_elem?,
}
use axon_cache.Domain.{CacheValueType}
use axon_cache.Table.{Entry}
use axon_cache.Value
use axon_cache.Value.{get_from_slot, get_with_type_from_slot}
use axon_cache.Cache.{Hasher, contains}
use axon_cache.Cache.Models.{Map, Models, probe_key-present, probe_key-absent}
use axon_cache.Cache.Outcome.{Spec}
use axon_cache.Cache.Lookup.{
  spec_get, spec_get_with_type, spec_contains, value_type-type_code, type_code-byte,
}
use axon_cache.Dedup.{DedupCache, find_index, get_dedup, get_dedup_with_type}
use axon_cache.Dedup.Entries.{Means, Means-type, decode_value-Means}

-- Either nobody has the key, or the record stands for what the map has.
pub data Agrees (values : List Bytes)
    : Option (CacheValueType × Bytes) → Option Entry → Type 0 where
  nothing : Agrees values none none
  record_of :
      (t : CacheValueType) (x : Bytes) (e : Entry)
      → Means values t x e
      → Agrees values (some (t, x)) (some e)

-- The dedup cache represents the map `s`.
pub record Answers (h : Hasher) (s : Spec) (c : DedupCache) : Type 0 where
  pub entries : Map
  pub models : Models h entries c.cache
  pub agrees : (k : Bytes) → Agrees c.values (s k) (entries k)

-- Its index of the frequent values is right as well: it has all of them, each with a place where it stands.
pub record Holds (h : Hasher) (s : Spec) (c : DedupCache) : Type 0 where
  pub answers : Answers h s c
  pub open answers use *
  pub indexed :
      (value : Bytes) (i : ℕ)
      → find_index c.values_to_index value ≡ some i
      → (i < 65536) × (get_elem? c.values i ≡ some value)
  pub complete :
      (value : Bytes) (i : ℕ)
      → get_elem? c.values i ≡ some value
      → (j : ℕ) × (find_index c.values_to_index value ≡ some j)

module _ (h : Hasher) (s : Spec) (c : DedupCache) (v : Answers h s c) (key : Bytes) where
  get_dedup-Agrees :
      (o : Option (CacheValueType × Bytes)) (e : Option Entry) (type : CacheValueType)
      → Agrees c.values o e
      → v.entries key ≡ e
      → get_dedup h key type c ≡ ok (spec_get o type (h.hash key))
  unfolding get_dedup get_from_slot
  get_dedup-Agrees none none type nothing at =
      rw (probe_key-absent h v.entries c.cache v.models key at) refl
  get_dedup-Agrees none (some _) type x at = elim x [ ]
  get_dedup-Agrees (some _) none type x at = elim x [ ]
  get_dedup-Agrees (some _) (some _) type (record_of t x e means) at =
      let l = probe_key-present h v.entries c.cache v.models key e at in
      let decoded =
        decode_value-Means c.values t x e c.cache.probe c.cache.memory.bytes _ _ means
          l.in_table.stored in
      let typed = l.in_table.stored.type ∙ Means-type c.values t x e means in
      rw l.found (ground (arith, typed, decoded, type_code-byte type))

  get_dedup_with_type-Agrees :
      (o : Option (CacheValueType × Bytes)) (e : Option Entry)
      → Agrees c.values o e
      → v.entries key ≡ e
      → get_dedup_with_type h key c ≡ ok (spec_get_with_type o (h.hash key))
  unfolding get_dedup_with_type get_with_type_from_slot
  get_dedup_with_type-Agrees none none nothing at =
      rw (probe_key-absent h v.entries c.cache v.models key at) refl
  get_dedup_with_type-Agrees none (some _) x at = elim x [ ]
  get_dedup_with_type-Agrees (some _) none x at = elim x [ ]
  get_dedup_with_type-Agrees (some _) (some _) (record_of t x e means) at =
      let l = probe_key-present h v.entries c.cache v.models key e at in
      let decoded =
        decode_value-Means c.values t x e c.cache.probe c.cache.memory.bytes _ _ means
          l.in_table.stored in
      let typed = l.in_table.stored.type ∙ Means-type c.values t x e means in
      rw (l.found, decoded, typed, value_type-type_code t) refl

  contains-Agrees :
      (o : Option (CacheValueType × Bytes)) (e : Option Entry)
      → Agrees c.values o e
      → v.entries key ≡ e
      → contains h key c.cache ≡ ok (spec_contains o (h.hash key))
  unfolding contains
  contains-Agrees none none nothing at =
      rw (probe_key-absent h v.entries c.cache v.models key at) (unfold Value.contains in refl)
  contains-Agrees none (some _) x at = elim x [ ]
  contains-Agrees (some _) none x at = elim x [ ]
  contains-Agrees (some _) (some _) (record_of t x e means) at =
      let l = probe_key-present h v.entries c.cache v.models key e at in
      rw l.found (unfold Value.contains in refl)

  -- The three lookups of a dedup cache that represents a map answer as the map does: `getInternal` the value
  -- if the type is the one that is asked for, `getWithTypeInternal` the value and its type, and `contains`
  -- whether the key is there, whether the record holds the value or the index of a frequent one.
  pub lookups-Answers :
      (type : CacheValueType)
      → (get_dedup h key type c ≡ ok (spec_get (s key) type (h.hash key)))
        × (get_dedup_with_type h key c ≡ ok (spec_get_with_type (s key) (h.hash key)))
        × (contains h key c.cache ≡ ok (spec_contains (s key) (h.hash key)))
  lookups-Answers type = (
    get_dedup-Agrees (s key) (v.entries key) type (v.agrees key) refl,
    get_dedup_with_type-Agrees (s key) (v.entries key) (v.agrees key) refl,
    contains-Agrees (s key) (v.entries key) (v.agrees key) refl,
  )
