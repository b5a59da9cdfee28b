-- ===== src/Cache/Outcome.antt =====
-- Every branch of `putInternal` of a linear probe cache, and the refinement of insertion into a
-- partial map from keys to typed values (src/axoncache/cache/base/HashedCacheBase.cpp,
-- src/axoncache/cache/value/LinearProbeValue.cpp).
use axon_cache.Prelude.{
  ℕ, ◌+◌, ◌^◌, ◌≤◌, ◌<◌, ◌≡◌, refl, ap, ◌∙◌, inl, inr, Option, none, some, Bytes, ok, throw, Bool,
  true, false, Result, length, arith, Error, bytes_eq, bytes_eq-eq, if◌then◌else◌, Option-cases,
  Bool-cases, key_space_is_full, key_size_too_large, value_size_too_large, offset_bits_too_short,
}
use mathlib.Core.Path.{fun_ext}
use native.Mathlib.Decide.{dec_le}
use axon_cache.Domain.{CacheValueType, type_code, key_length_limit, value_length_limit}
use axon_cache.Memory.{Memory}
use axon_cache.Table.{Entry}
use axon_cache.Value.{add_to_end, fill_slot, add}
use axon_cache.Value.Slot.{offset_of}
use axon_cache.Value.Add.{
  value_entry, entry_size, IsGrown, CanGrow, Appended, add_to_end-Appended, fill_slot-Added,
  fill_slot-throw,
}
use axon_cache.Cache.{Cache, Hasher, put_internal}
use axon_cache.Cache.Models.{Models, Map, IsWritable}
use axon_cache.Cache.Put.{insert}
use axon_cache.Cache.Step.{
  offset, stored_cache, put_with_full, put_with_old, put_with_stored, put_with_throw, stored-Models,
  stored-IsWritable,
}

-- What a cache promises: a partial map from keys to typed values.
abbrev pub Spec : Type 0
Spec = Bytes → Option (CacheValueType × Bytes)

abbrev pub put_spec : Spec → Bytes → CacheValueType → Bytes → Spec
put_spec s key type value k = if bytes_eq k key then some (type, value) else s k

abbrev pub record_of : Bytes → Option (CacheValueType × Bytes) → Option Entry
record_of k none = none
record_of k (some (type, value)) = some (value_entry k (type_code type) value)

abbrev pub records : Spec → Map
records s k = record_of k (s k)

abbrev pub Refines : Hasher → Spec → Cache → Type 0
Refines h s c = Models h (records s) c

insert-records :
    (s : Spec) (key : Bytes) (type : CacheValueType) (value : Bytes)
    → insert (records s) (value_entry key (type_code type) value)
      ≡ records (put_spec s key type value)
insert-records s key type value = fun_ext λ k. elim (Bool-cases (bytes_eq k key)) [
  | inl same ↦ rw (same, bytes_eq-eq k key same)
  | inr other ↦ rw other
]

pub type_code-lt : (t : CacheValueType) → type_code t < 8
type_code-lt CacheValueType.string = omega arith
type_code-lt _ = omega arith

-- The cache has the same parameters, and the record more in a memory that may have grown.
pub record Grew (c : Cache) (e : Entry) (c' : Cache) : Type 0 where
  pub same_probe : c'.probe ≡ c.probe
  pub same_limit : c'.max_number_of_entries ≡ c.max_number_of_entries
  pub size : c'.memory.data_size ≡ c.memory.data_size + entry_size e
  pub capacity : IsGrown c.memory e c'.memory

-- How a `putInternal` ends. Its two limits on sizes come first at a new key; the offset of the new
-- record has to fit the offset bits; else the value is stored.
pub data Outcome (h : Hasher) (s : Spec) (key : Bytes) (type : CacheValueType) (value : Bytes)
    (c : Cache) (r : Result (Bool × ℕ) × Cache) : Type 0 where
  full :
      c.max_number_of_entries ≤ c.number_of_entries
      → r ≡ (throw key_space_is_full, c)
      → Outcome h s key type value c r
  exists :
      (old : CacheValueType × Bytes) (collisions : ℕ)
      → c.number_of_entries < c.max_number_of_entries
      → s key ≡ some old
      → r ≡ (ok (false, collisions), c)
      → Outcome h s key type value c r
  long_key :
      c.number_of_entries < c.max_number_of_entries
      → s key ≡ none
      → key_length_limit < length key
      → r ≡ (throw key_size_too_large, c)
      → Outcome h s key type value c r
  long_value :
      c.number_of_entries < c.max_number_of_entries
      → s key ≡ none
      → length key ≤ key_length_limit
      → value_length_limit < length value
      → r ≡ (throw value_size_too_large, c)
      → Outcome h s key type value c r
  far_offset :
      (m : Memory)
      → c.number_of_entries < c.max_number_of_entries
      → s key ≡ none
      → (length key ≤ key_length_limit) × (length value ≤ value_length_limit)
      → 2 ^ c.probe.offset_bits ≤ offset_of c.probe c.memory.data_size
      → Appended c.memory (value_entry key (type_code type) value) m
      → r ≡ (throw offset_bits_too_short, record c { memory = m })
      → Outcome h s key type value c r
  stored :
      (collisions : ℕ) (c' : Cache)
      → c.number_of_entries < c.max_number_of_entries
      → s key ≡ none
      → (length key ≤ key_length_limit) × (length value ≤ value_length_limit)
      → offset_of c.probe c.memory.data_size < 2 ^ c.probe.offset_bits
      → r ≡ (ok (true, collisions), c')
      → Refines h (put_spec s key type value) c'
      → IsWritable c'
      → c'.number_of_entries ≡ c.number_of_entries + 1
      → (collisions ≤ c'.max_collisions) × (c.max_collisions ≤ c'.max_collisions)
      → Grew c (value_entry key (type_code type) value) c'
      → Outcome h s key type value c r

-- `add_to_end` refuses what does not fit the fields of the record, and changes nothing.
add_to_end-long_key :
    (key value : Bytes) (type : ℕ) (m : Memory)
    → key_length_limit < length key
    → add_to_end key type value m ≡ (throw key_size_too_large, m)
unfolding add_to_end
add_to_end-long_key key value type m long = ground arith

add_to_end-long_value :
    (key value : Bytes) (type : ℕ) (m : Memory)
    → length key ≤ key_length_limit
    → value_length_limit < length value
    → add_to_end key type value m ≡ (throw value_size_too_large, m)
unfolding add_to_end
add_to_end-long_value key value type m short long = ground arith

fill_slot_throw :
    (p : _) (o hashcode : ℕ) (x : Error) (m : Memory)
    → fill_slot p o hashcode (throw x, m) ≡ (throw x, m)
unfolding fill_slot
fill_slot_throw p o hashcode x m = refl

module _ (h : Hasher) (s : Spec) (c : Cache) (v : Refines h s c) (w : IsWritable c) (key : Bytes)
    (type : CacheValueType) (value : Bytes) where
  abbrev adder : ℕ → Memory → Result ℕ × Memory
  adder o = add c.probe o key (h.hash key) (type_code type) value

  abbrev entry : Entry
  entry = value_entry key (type_code type) value

  record_of-new : s key ≡ none → records s key ≡ none
  record_of-new e = ap (record_of key) e

  module _ (new : s key ≡ none) (spare : c.number_of_entries < c.max_number_of_entries) where
    outcome_throw :
        (x : Error) (m : Memory)
        → add_to_end key (type_code type) value c.memory ≡ (throw x, m)
        → put_internal h key type value c ≡ (throw x, record c { memory = m })
    unfolding put_internal add
    outcome_throw x m run =
        put_with_throw h (records s) c v key adder spare x m (record_of-new new) (
          ap (fill_slot c.probe (offset h (records s) c v w entry) (h.hash key)) run
          ∙ fill_slot_throw c.probe (offset h (records s) c v w entry) (h.hash key) x m)

    module _ (short_key : length key ≤ key_length_limit)
        (short_value : length value ≤ value_length_limit) (g : CanGrow c.memory entry) where
      appended :
          (r : Memory) × (add_to_end key (type_code type) value c.memory
            ≡ (ok c.memory.data_size, r))
          × Appended c.memory entry r
      appended = add_to_end-Appended c.memory key (type_code type) value short_key short_value g

      small : c.memory.data_size < 2 ^ 64
      small = omega (arith, g.no_wrap)

      Outcome-far :
          2 ^ c.probe.offset_bits ≤ offset_of c.probe c.memory.data_size
          → Outcome h s key type value c (put_internal h key type value c)
      unfolding put_internal add
      Outcome-far far =
          let (m, run, a) = appended in
          far_offset m spare new (short_key, short_value) far a
            (put_with_throw h (records s) c v key adder spare offset_bits_too_short m
              (record_of-new new)
              (ap (fill_slot c.probe (offset h (records s) c v w entry) (h.hash key)) run
                ∙ fill_slot-throw c.probe v.probe c.memory entry (offset h (records s) c v w entry)
                    (h.hash key) m a v.above small far))

      Outcome-stored :
          offset_of c.probe c.memory.data_size < 2 ^ c.probe.offset_bits
          → Outcome h s key type value c (put_internal h key type value c)
      unfolding put_internal add
      Outcome-stored fits =
          let (m, run, a) = appended in
          let o = offset h (records s) c v w entry in
          let (r, filled, added) =
            fill_slot-Added c.probe v.probe c.memory entry o (h.hash key) m a v.above small fits in
          let new' = record_of-new new in
          stored _ (stored_cache h (records s) c v key r) spare new (short_key, short_value) fits
            (put_with_stored h (records s) c v w entry new' spare r adder
              (ap (fill_slot c.probe o (h.hash key)) run ∙ filled))
            (rw (insert-records s key type value) at (
              stored-Models h (records s) c v w entry new' spare r
                (record {
                  short_key = omega arith;
                  dedup_bits = omega arith;
                  type_bits = type_code-lt type;
                  val_size_bits = omega arith;
                })
                (omega (arith, g.no_wrap)) fits added))
            (stored-IsWritable h (records s) c v w entry new' spare r added)
            (omega (arith, v.room, v.probe.addressable)) (omega arith, omega arith)
            (record {
              same_probe = refl;
              same_limit = refl;
              size = added.size;
              capacity = added.capacity;
            })

  -- The branches follow the tests of the code.
  Outcome-new :
      s key ≡ none
      → c.number_of_entries < c.max_number_of_entries
      → CanGrow c.memory entry
      → Outcome h s key type value c (put_internal h key type value c)
  Outcome-new new spare g = elim (dec_le (length key) key_length_limit) [
    | no long ↦ long_key spare new (omega arith) (
        outcome_throw new spare key_size_too_large c.memory
          (add_to_end-long_key key value (type_code type) c.memory (omega arith)))
    | yes short ↦ elim (dec_le (length value) value_length_limit) [
      | no long ↦ long_value spare new short (omega arith) (
          outcome_throw new spare value_size_too_large c.memory
            (add_to_end-long_value key value (type_code type) c.memory short (omega arith)))
      | yes fits ↦ elim (dec_le (2 ^ c.probe.offset_bits) (offset_of c.probe c.memory.data_size)) [
        | yes far ↦ Outcome-far new spare short fits g far
        | no near ↦ Outcome-stored new spare short fits g (omega arith)
      ]
    ]
  ]

  -- On a cache that refines a map and can grow, `putInternal` ends in exactly one of these ways, by
  -- the tests in this order: it throws at the limit on entries; it reports an existing key and
  -- changes nothing; it throws for a key or a value that is too long and changes nothing; it throws
  -- for an offset that does not fit; or it stores the value, the cache refines the map with that
  -- binding, has one entry more, is still writable, and its data has grown by the record.
  pub put_internal-Outcome :
      CanGrow c.memory entry → Outcome h s key type value c (put_internal h key type value c)
  unfolding put_internal
  put_internal-Outcome g = elim (dec_le c.max_number_of_entries c.number_of_entries) [
    | yes at_limit ↦ full at_limit (put_with_full h (records s) c v key adder at_limit)
    | no below ↦ elim (Option-cases (s key)) [
      | inl new ↦ Outcome-new new (omega arith) g
      | inr (old, at) ↦
          exists old _ (omega arith) at
            (put_with_old h (records s) c v key adder (omega arith) _ (ap (record_of key) at))
    ]
  ]
