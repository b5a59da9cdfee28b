-- ===== src/Probe/Holds.antt =====
-- When the bytes of the key space and the data space hold a table of entries
-- (include/axoncache/cache/probe/LinearProbe.h).
use axon_cache.Prelude.{
  ℕ, ◌+◌, ◌*◌, ◌/◌, ◌%◌, ◌^◌, ◌≤◌, ◌<◌, ◌≡◌, ◌≢◌, sym, ap, true, ltb, ok, ◌==◌, ◌∙◌, Option, none,
  some, false, Bytes, bytes_eq, bytes_eq-eq, length, bit_and, Bool-cases, inl, inr, arith,
}
use native.Mathlib.Decide.{ℕ_discrete}
use axon_cache.Ram.{Ram, load, view, memcmp_eq}
use axon_cache.Ram.Laws.{Agree, load-Agree, view-Agree, memcmp_eq-view}
use axon_cache.Table.{Entry, Table}
use axon_cache.Probe.{
  Probe, hashcode_mask, offset_mask, record_size, key_size_at, dedup_index_at, type_at, val_size_at,
  slot_at, record_address, slot_matches,
}

-- The record of `e` stands at `address`, behind the key space and before `end`.
pub record Stored (p : Probe) (m : Ram) (end : ℕ) (e : Entry) (address : ℕ) : Type 0 where
  pub above : 8 * p.number_of_key_slots ≤ address
  pub inside : address + record_size + length e.key + length e.payload ≤ end
  pub key_size : key_size_at m address ≡ length e.key
  pub dedup : dedup_index_at m address ≡ e.dedup
  pub type : type_at m address ≡ e.type
  pub val_size : val_size_at m address ≡ e.val_size
  pub key : view m (address + record_size) (length e.key) ≡ e.key
  pub payload : view m (address + record_size + length e.key) (length e.payload) ≡ e.payload

-- The slot holds the hash bits of the entry's key, and points to the entry's record.
pub record Filled (hash : Bytes → ℕ) (p : Probe) (m : Ram) (end : ℕ) (e : Entry) (slot : ℕ)
    : Type 0 where
  pub nonzero : bit_and slot (offset_mask p) ≢ 0
  pub hash_bits : bit_and slot (hashcode_mask p) ≡ bit_and (hash e.key) (hashcode_mask p)
  pub stored : Stored p m end e (record_address p slot)

abbrev pub SlotHolds : (Bytes → ℕ) → Probe → Ram → ℕ → ℕ → Option Entry → Type 0
SlotHolds hash p m end slot none = bit_and slot (offset_mask p) ≡ 0
SlotHolds hash p m end slot (some e) = Filled hash p m end e slot

abbrev pub Holds : (Bytes → ℕ) → Probe → Ram → ℕ → Table → Type 0
Holds hash p m end t =
    (i : ℕ) → i < p.number_of_key_slots → SlotHolds hash p m end (slot_at m i) (t i)

-- The bytes of the stored key, read at the length of another key.
key_view :
    (p : Probe) (m : Ram) (end : ℕ) (e : Entry) (a : ℕ) (k : Bytes)
    → Stored p m end e a
    → length e.key ≡ length k
    → memcmp_eq m (a + record_size) k ≡ bytes_eq e.key k
key_view p m end e a k s same =
    memcmp_eq-view m (a + record_size) k
    ∙ ap (λ (x : Bytes). bytes_eq x k) (ap (view m (a + record_size)) (sym same) ∙ s.key)

pub bytes_eq-length : (xs ys : Bytes) → length xs ≢ length ys → bytes_eq xs ys ≡ false
bytes_eq-length xs ys ne = elim (Bool-cases (bytes_eq xs ys)) [
  | inl same ↦ absurd (ne (ap (λ (x : Bytes). length x) (bytes_eq-eq xs ys same)))
  | inr other ↦ other
]

-- The comparison that the probe makes at a filled slot is the comparison of the keys.
pub slot_matches-eq :
    (hash : Bytes → ℕ) (p : Probe) (m : Ram) (end : ℕ) (e : Entry) (slot : ℕ) (k : Bytes)
    → Filled hash p m end e slot
    → slot_matches p k (bit_and (hash k) (hashcode_mask p)) end m slot ≡ ok (bytes_eq e.key k)
unfolding slot_matches
slot_matches-eq hash p m end e slot k f =
    let near : ltb end (record_address p slot + record_size) ≡ false =
      ground (arith, f.stored.inside) in
    elim (ℕ_discrete (length e.key) (length k)) [
      | yes same ↦
          let sized : (key_size_at m (record_address p slot) == length k) ≡ true =
            ground (arith, f.stored.key_size, same) in
          let within : ltb end (record_address p slot + record_size + length k) ≡ false =
            ground (arith, f.stored.inside, same) in
          let view = key_view p m end e (record_address p slot) k f.stored same in
          elim (Bool-cases (bytes_eq e.key k)) [
            | inl one ↦
                let bits : (bit_and slot (hashcode_mask p) == bit_and (hash k) (hashcode_mask p))
                    ≡ true =
                  ground (arith, f.hash_bits, ap hash (bytes_eq-eq e.key k one)) in
                rw (bits, near, sized, within, view)
            | inr other ↦
                elim (Bool-cases
                  (bit_and slot (hashcode_mask p) == bit_and (hash k) (hashcode_mask p))) [
                    | inl bits ↦ rw (bits, near, sized, within, view)
                    | inr differ ↦ rw (differ, other)
                  ]
          ]
      | no differ ↦
          let sized : (key_size_at m (record_address p slot) == length k) ≡ false =
            ground (arith, f.stored.key_size, differ) in
          let other = bytes_eq-length e.key k differ in
          elim (Bool-cases (bit_and slot (hashcode_mask p) == bit_and (hash k) (hashcode_mask p))) [
            | inl bits ↦ rw (bits, near, sized, other)
            | inr apart ↦ rw (apart, other)
          ]
    ]

-- A record stays where it stands while its bytes do.
pub Stored-Agree :
    (p : Probe) (m n : Ram) (end end' : ℕ) (e : Entry) (a : ℕ)
    → Stored p m end e a
    → end ≤ end'
    → Agree n m (8 * p.number_of_key_slots) end
    → Stored p n end' e a
unfolding key_size_at dedup_index_at type_at val_size_at
Stored-Agree p m n end end' e a s le same = record {
  above = s.above;
  inside = omega (arith, s.inside);
  key_size = load-Agree 2 n m a (within a 2 (omega arith) (omega arith)) ∙ s.key_size;
  dedup = ap (λ (x : ℕ). x % 2 ^ 5) word ∙ s.dedup;
  type = ap (λ (x : ℕ). x / 2 ^ 5 % 2 ^ 3) word ∙ s.type;
  val_size = ap (λ (x : ℕ). x / 2 ^ 8) word ∙ s.val_size;
  key =
      view-Agree n m (a + record_size) (length e.key)
        (within (a + record_size) (length e.key) (omega arith) (omega arith))
      ∙ s.key;
  payload =
      view-Agree n m (a + record_size + length e.key) (length e.payload)
        (within (a + record_size + length e.key) (length e.payload) (omega arith) (omega arith))
      ∙ s.payload;
}
  where
    within :
        (lo w : ℕ)
        → a ≤ lo
        → lo + w ≤ a + record_size + length e.key + length e.payload
        → Agree n m lo (lo + w)
    within lo w above inside x from to = same x (omega (arith, s.above)) (omega (arith, s.inside))

    word : load 4 n (a + 2) ≡ load 4 m (a + 2)
    word = load-Agree 4 n m (a + 2) (within (a + 2) 4 (omega arith) (omega arith))

-- A table that the bytes hold stays held while the key space and the data space keep their bytes.
pub SlotHolds-Agree :
    (hash : Bytes → ℕ) (p : Probe) (m n : Ram) (end end' i : ℕ) (o : Option Entry)
    → SlotHolds hash p m end (slot_at m i) o
    → end ≤ end'
    → Agree n m (8 * i) (8 * i + 8)
    → Agree n m (8 * p.number_of_key_slots) end
    → SlotHolds hash p n end' (slot_at n i) o
unfolding slot_at
SlotHolds-Agree hash p m n end end' i none h le slot rest = rw (load-Agree 8 n m (8 * i) slot) h
SlotHolds-Agree hash p m n end end' i (some e) h le slot rest =
    rw (load-Agree 8 n m (8 * i) slot) (record {
      nonzero = h.nonzero;
      hash_bits = h.hash_bits;
      stored = Stored-Agree p m n end end' e _ h.stored le rest;
    })
