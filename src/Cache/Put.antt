-- ===== src/Cache/Put.antt =====
-- `putInternal` refines the insertion into a partial map
-- (src/axoncache/cache/base/HashedCacheBase.cpp).
use axon_cache.Prelude.{
  ℕ, ◌+◌, ◌*◌, ◌%◌, ◌^◌, ◌≤◌, ◌<◌, ◌≡◌, ◌≢◌, sym, ap, ◌∙◌, ◌⊎◌, inl, inr, none, some, Bytes, ◌==◌,
  if◌then◌else◌, bytes_eq, bytes_eq-eq, arith, Bool-cases, ==_iff, ==_refl, bytes_eq_refl,
}
use axon_cache.Ram.{Ram, store}
use axon_cache.Ram.Laws.{store_frame, load-store}
use axon_cache.Table.{Entry, put_at, Walk}
use axon_cache.Table.Insert.{put_at-Reaches, put_at-old, count-put_at}
use axon_cache.Probe.{slot_at}
use axon_cache.Probe.Holds.{SlotHolds-Agree, Stored-Agree, Holds, Filled}
use axon_cache.Value.Write.{IsEntry, write_entry, write_entry_frame, write_entry-Stored}
use axon_cache.Value.Add.{entry_size}
use axon_cache.Value.Slot.{
  slot_value, offset_of, slot_value-hash, slot_value-lt, record_address-slot_value,
  slot_value-nonzero,
}
use axon_cache.Cache.{Cache, Hasher}
use axon_cache.Cache.Models.{Models, Represents, Map}

-- The map with the record of a new key.
abbrev pub insert : Map → Entry → Map
insert f e k = if bytes_eq k e.key then some e else f k

-- The bytes after the record is written behind the data and the slot is filled.
abbrev pub put_bytes : Hasher → Cache → ℕ → Entry → Ram
put_bytes h c j e =
    let a = c.memory.data_size in
    store 8 (write_entry c.memory.bytes a e) (8 * j)
      (slot_value c.probe (h.hash e.key) (offset_of c.probe a))

module _ (h : Hasher) (f : Map) (c : Cache) (v : Models h f c) (e : Entry) (fits : IsEntry e) where
  abbrev n : ℕ
  n = c.probe.number_of_key_slots

  abbrev a : ℕ
  a = c.memory.data_size

  module _ (j : ℕ) (inside : j < n) (room : a + entry_size e < 2 ^ 64)
      (offset_fits : offset_of c.probe a < 2 ^ c.probe.offset_bits) where
    abbrev slot : ℕ
    slot = slot_value c.probe (h.hash e.key) (offset_of c.probe a)

    small : a < 2 ^ 64
    small = omega arith

    put_bytes-slot : slot_at (put_bytes h c j e) j ≡ slot
    unfolding slot_at
    put_bytes-slot =
        load-store 8 _ (8 * j) slot
          (slot_value-lt c.probe v.probe (h.hash e.key) _ offset_fits (h.hash_lt e.key))

    put_bytes-other :
        (x : ℕ) → x < a → (x < 8 * j) ⊎ (8 * j + 8 ≤ x) → put_bytes h c j e x ≡ c.memory.bytes x
    put_bytes-other x lt out =
        store_frame 8 _ (8 * j) slot x out ∙ write_entry_frame c.memory.bytes a e x lt

    new-Filled : Filled h.hash c.probe (put_bytes h c j e) (a + entry_size e) e slot
    new-Filled = record {
      nonzero = slot_value-nonzero c.probe v.probe a v.above small (h.hash e.key) offset_fits;
      hash_bits = slot_value-hash c.probe v.probe (h.hash e.key) _ offset_fits;
      stored =
          rw (record_address-slot_value c.probe v.probe a v.above small (h.hash e.key) offset_fits)
            (Stored-Agree c.probe (write_entry c.memory.bytes a e) (put_bytes h c j e)
              (a + entry_size e) (a + entry_size e) e a
              (write_entry-Stored c.memory.bytes a e fits c.probe (a + entry_size e) v.above
                (omega arith))
              (omega arith) (λ x lo hi. store_frame 8 _ (8 * j) slot x (inr (omega arith))));
    }

    put_bytes-Holds :
        Holds h.hash c.probe (put_bytes h c j e) (a + entry_size e) (put_at v.table j e)
    put_bytes-Holds i lt = elim (Bool-cases (i == j)) [
      | inl same ↦
          let one : i ≡ j = (==_iff i j).0 same in rw (same, one, put_bytes-slot) new-Filled
      | inr other ↦
          let ne : i ≢ j = ground arith in
          rw other (
            SlotHolds-Agree h.hash c.probe c.memory.bytes (put_bytes h c j e) a (a + entry_size e) i
              (v.table i) (v.held i lt) (omega arith)
              (λ x lo hi. put_bytes-other x (omega (arith, v.above)) (ground arith))
              (λ x lo hi. put_bytes-other x hi (inr (omega arith))))
    ]

    put_sound :
        f e.key ≡ none
        → (i : ℕ) (x : Entry) → i < n
        → put_at v.table j e i ≡ some x
        → insert f e x.key ≡ some x
    put_sound new i x lt at = elim (Bool-cases (i == j)) [
      | inl same ↦ let one : x ≡ e = ground (arith, at) in rw (one, bytes_eq_refl)
      | inr other ↦
          let old : f x.key ≡ some x = v.sound i x lt (rw other at at) in
          elim (Bool-cases (bytes_eq x.key e.key)) [
            | inl same ↦ absurd (cc (old, new, ap f (bytes_eq-eq x.key e.key same)))
            | inr differ ↦ rw differ old
          ]
    ]

    put_complete :
        v.table j ≡ none
        → (k : Bytes) (x : Entry) → insert f e k ≡ some x
        → (i : ℕ) × (i < n) × (put_at v.table j e i ≡ some x) × (x.key ≡ k)
    put_complete free k x at = elim (Bool-cases (bytes_eq k e.key)) [
      | inl same ↦
          let one : x ≡ e = ground (arith, at) in
          (
            j,
            inside,
            ground (arith, ==_refl j),
            ap (λ (y : Entry). y.key) one ∙ sym (bytes_eq-eq k e.key same),
          )
      | inr differ ↦
          let (i, lt, here, key) = v.complete k x (rw differ at at) in
          (i, lt, put_at-old v.table j e free i x here, key)
    ]

    -- The bytes that hold the record of a new key at the end of its search represent the map with
    -- that record.
    pub put-Represents :
        f e.key ≡ none
        → (d : ℕ) → Walk n v.table e.key (h.hash e.key % n) d j
        → v.table j ≡ none
        → c.number_of_entries + 1 < n
        → Represents h
            (insert f e)
            c.probe
            (put_bytes h c j e)
            (a + entry_size e)
            (c.number_of_entries + 1)
    put-Represents new d w free spare = record {
      probe = v.probe;
      above = omega (arith, v.above);
      table = put_at v.table j e;
      held = put_bytes-Holds;
      reaches = put_at-Reaches v.table j e free h.hash n d v.reaches w;
      counted = omega (arith, count-put_at v.table j e free n inside, v.counted);
      room = spare;
      sound = put_sound new;
      complete = put_complete free;
    }
