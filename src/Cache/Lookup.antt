-- ===== src/Cache/Lookup.antt =====
-- The lookups of a linear probe cache answer as the partial map does
-- (include/axoncache/cache/base/HashedCacheBase.h).
use axon_cache.Prelude.{
  ℕ, ◌%◌, ◌^◌, ◌≡◌, refl, ap, inl, inr, Option, none, some, Bytes, ok, Bool, true, false, arith,
  ◌==◌, if◌then◌else◌, Option-cases, [],
}
use axon_cache.Ram.{Ram, load}
use axon_cache.Domain.{CacheValueType, string, type_code, value_type}
use axon_cache.Probe.{Probe, record_address, slot_at, key_slot_to_ptr_offset}
use axon_cache.Probe.Holds.{Filled, Stored}
use axon_cache.Value
use axon_cache.Value.{value_at, decode_value, get_with_type_from_slot}
use axon_cache.Value.Add.{value_entry}
use axon_cache.Cache.{Cache, Hasher, get_internal, get_with_type_internal, contains}
use axon_cache.Cache.Models.{probe_key-present, probe_key-absent}
use axon_cache.Cache.Outcome.{Spec, Refines, records, record_of}

pub value_type-type_code : (t : CacheValueType) → value_type (type_code t) ≡ t
unfolding value_type
value_type-type_code CacheValueType.string = refl
value_type-type_code CacheValueType.string_list = refl
value_type-type_code CacheValueType.bool = refl
value_type-type_code CacheValueType.int64 = refl
value_type-type_code CacheValueType.double = refl
value_type-type_code CacheValueType.int = refl
value_type-type_code CacheValueType.float = refl
value_type-type_code CacheValueType.float_list = refl

pub type_code-byte : (t : CacheValueType) → type_code t % 2 ^ 8 ≡ type_code t
type_code-byte CacheValueType.string = refl
type_code-byte CacheValueType.string_list = refl
type_code-byte CacheValueType.bool = refl
type_code-byte CacheValueType.int64 = refl
type_code-byte CacheValueType.double = refl
type_code-byte CacheValueType.int = refl
type_code-byte CacheValueType.float = refl
type_code-byte CacheValueType.float_list = refl

-- The bytes behind the key are the value.
pub value_at-Stored :
    (p : Probe) (m : Ram) (end : ℕ) (key : Bytes) (type : ℕ) (value : Bytes) (a : ℕ)
    → Stored p m end (value_entry key type value) a
    → value_at m a ≡ value
unfolding value_at
value_at-Stored p m end key type value a s = rw (s.key_size, s.val_size) s.payload

module _ (hash : Bytes → ℕ) (p : Probe) (m : Ram) (end : ℕ) (key : Bytes) (t : CacheValueType)
    (x : Bytes) (slot : ℕ) (f : Filled hash p m end (value_entry key (type_code t) x) slot) where
  get-Filled :
      (o : ℕ) (type : CacheValueType)
      → load 8 m o ≡ slot
      → Value.get p m (some o) (type_code type) ≡ (if type_code t == type_code type then x else [])
  unfolding Value.get
  get-Filled o type e =
      let read = value_at-Stored p m end key (type_code t) x (record_address p slot) f.stored in
      rw e (ground (arith, f.stored.type, read, type_code-byte type))

  get_with_type-Filled :
      (o : ℕ) → load 8 m o ≡ slot → Value.get_with_type p m (some o) [] ≡ ok (x, t)
  unfolding Value.get_with_type
  get_with_type-Filled o e =
      let read = value_at-Stored p m end key (type_code t) x (record_address p slot) f.stored in
      rw e (ground (arith, f.stored.type, read, value_type-type_code t))

-- What the map says to each lookup, with the hash that the lookup reports.
abbrev pub spec_get : Option (CacheValueType × Bytes) → CacheValueType → ℕ → Bytes × Bool × ℕ
spec_get none type hash = ([], false, 0)
spec_get (some (t, v)) type hash = (if type_code t == type_code type then v else [], true, hash)

abbrev pub spec_get_with_type : Option (CacheValueType × Bytes) → ℕ → (Bytes × CacheValueType) × ℕ
spec_get_with_type none hash = (([], string), 0)
spec_get_with_type (some (t, v)) hash = ((v, t), hash)

abbrev pub spec_contains : Option (CacheValueType × Bytes) → ℕ → Bool × ℕ
spec_contains none hash = (false, 0)
spec_contains (some _) hash = (true, hash)

module _ (h : Hasher) (s : Spec) (c : Cache) (v : Refines h s c) (key : Bytes) where
  -- In a cache that refines a map, `contains` answers whether the map has the key, with the key's
  -- hash if it has and 0 if not.
  pub contains-spec_contains : contains h key c ≡ ok (spec_contains (s key) (h.hash key))
  unfolding contains
  contains-spec_contains = elim (Option-cases (s key)) [
    | inl e ↦
        rw (probe_key-absent h (records s) c v key (ap (record_of key) e), e)
          (unfold Value.contains in refl)
    | inr ((t, x), e) ↦
        let l = probe_key-present h (records s) c v key _ (ap (record_of key) e) in
        rw (l.found, e) (unfold Value.contains in refl)
  ]

  -- In a cache that refines a map, `getInternal` answers the value if the map has the key with the
  -- type that is asked for, and the empty string else; it reports whether the map has the key at
  -- all.
  pub get_internal-spec_get :
      (type : CacheValueType) → get_internal h key type c ≡ ok (spec_get (s key) type (h.hash key))
  unfolding get_internal
  get_internal-spec_get type = elim (Option-cases (s key)) [
    | inl e ↦
        rw (probe_key-absent h (records s) c v key (ap (record_of key) e), e)
          (unfold Value.contains Value.get in refl)
    | inr ((t, x), e) ↦
        let l = probe_key-present h (records s) c v key _ (ap (record_of key) e) in
        let slot : load 8 c.memory.bytes (key_slot_to_ptr_offset l.slot)
            ≡ slot_at c.memory.bytes l.slot =
          unfold slot_at in ap (load 8 c.memory.bytes) l.offset in
        rw
          (
            l.found,
            e,
            get-Filled h.hash c.probe c.memory.bytes c.memory.data_size key t x _ l.in_table _ type
                slot,
          )
          (unfold Value.contains in refl)
  ]

  -- In a cache that refines a map, `getWithTypeInternal` answers the value and its type if the map
  -- has the key, and the empty string else.
  pub get_with_type_internal-spec_get_with_type :
      get_with_type_internal h key c ≡ ok (spec_get_with_type (s key) (h.hash key))
  unfolding get_with_type_internal
  get_with_type_internal-spec_get_with_type = elim (Option-cases (s key)) [
    | inl e ↦
        rw (probe_key-absent h (records s) c v key (ap (record_of key) e), e)
          (unfold Value.get_with_type in refl)
    | inr ((t, x), e) ↦
        let l = probe_key-present h (records s) c v key _ (ap (record_of key) e) in
        let slot : load 8 c.memory.bytes (key_slot_to_ptr_offset l.slot)
            ≡ slot_at c.memory.bytes l.slot =
          unfold slot_at in ap (load 8 c.memory.bytes) l.offset in
        rw
          (
            l.found,
            e,
            get_with_type-Filled h.hash c.probe c.memory.bytes c.memory.data_size key t x _
                l.in_table _ slot,
          )
          refl
  ]
