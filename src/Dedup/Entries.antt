-- ===== src/Dedup/Entries.antt =====
-- What a record of a dedup cache says: the value itself, or the index of a frequent one
-- (src/axoncache/cache/value/LinearProbeValue.cpp, getFromSlot and getWithTypeFromSlot).
use axon_cache.Prelude.{
  ℕ, ◌+◌, ◌^◌, ◌<◌, ◌≡◌, refl, sym, ap, ◌∙◌, inl, inr, some, List, [], ◌∷◌, Bytes, ok, false, arith,
  ltb, length, get_elem?, is_empty, Bool-cases,
}
use axon_cache.Ram.{Ram, load, view, le, from_le}
use axon_cache.Ram.Encoding.{length-le, from_le-le, load-view}
use axon_cache.Table.{Entry}
use axon_cache.Domain.{CacheValueType, type_code}
use axon_cache.Probe.{Probe, record_size, key_size_at, dedup_index_at}
use axon_cache.Probe.Holds.{Stored}
use axon_cache.Value.{decode_value, frequent_value, index_bytes}
use axon_cache.Value.Add.{value_entry, index_entry}
use axon_cache.Cache.Lookup.{value_at-Stored}

-- The entry `e` stands for the value `x` with its type, given the frequent values.
pub data Means (values : List Bytes) (t : CacheValueType) (x : Bytes) : Entry → Type 0 where
  as_value : (key : Bytes) → Means values t x (value_entry key (type_code t) x)
  as_index :
      (key : Bytes) (index size : ℕ)
      → index < 65536
      → get_elem? values index ≡ some x
      → Means values t x (index_entry key (type_code t) size index)

pub Means-type :
    (values : List Bytes) (t : CacheValueType) (x : Bytes) (e : Entry)
    → Means values t x e
    → e.type ≡ type_code t
Means-type values t x e (as_value key) = refl
Means-type values t x e (as_index key index size small at) = refl

nonempty :
    (values : List Bytes) (i : ℕ) (x : Bytes)
    → get_elem? values i ≡ some x
    → is_empty values ≡ false
nonempty [] i x at = cc at
nonempty (v ∷ values) i x at = refl

-- The bytes behind the key of an index entry are the index.
load-payload :
    (w : ℕ) (p : Probe) (m : Ram) (end : ℕ) (e : Entry) (a index : ℕ)
    → Stored p m end e a
    → e.payload ≡ le w index
    → index < 256 ^ w
    → load w m (a + record_size + key_size_at m a) ≡ index
load-payload w p m end e a index s same small =
    let sized : length e.payload ≡ w = rw same (length-le w index) in
    load-view w m _
    ∙ ap from_le (
        rw s.key_size (ap (view m (a + record_size + length e.key)) (sym sized) ∙ s.payload ∙ same))
    ∙ from_le-le w index small

frequent_value-get_elem? :
    (values : List Bytes) (i : ℕ) (x : Bytes)
    → get_elem? values i ≡ some x
    → frequent_value values i ≡ ok x
unfolding frequent_value
frequent_value-get_elem? values i x at = rw (at, frequent_value) refl

-- Reading a record gives the value that its entry stands for.
pub decode_value-Means :
    (values : List Bytes) (t : CacheValueType) (x : Bytes) (e : Entry) (p : Probe) (m : Ram)
    (end a : ℕ)
    → Means values t x e
    → Stored p m end e a
    → decode_value m a values ≡ ok x
unfolding decode_value
decode_value-Means values t x e p m end a (as_value key) s =
    let word : dedup_index_at m a ≡ 0 = s.dedup in
    rw word (ap ok (value_at-Stored p m end key (type_code t) x a s))
decode_value-Means values t x e p m end a (as_index key index size small at) s =
    elim (Bool-cases (ltb index 256)) [
      | inl one ↦
          let read =
            load-payload 1 p m end _ a index s (unfold index_bytes in rw one) (ground arith) in
          let word : dedup_index_at m a ≡ 16 = rw one at s.dedup in
          rw (word, nonempty values index x at, read) (frequent_value-get_elem? values index x at)
      | inr two ↦
          let read =
            load-payload 2 p m end _ a index s (unfold index_bytes in rw two) (omega arith) in
          let word : dedup_index_at m a ≡ 1 = rw two at s.dedup in
          rw (word, nonempty values index x at, read) (frequent_value-get_elem? values index x at)
    ]
