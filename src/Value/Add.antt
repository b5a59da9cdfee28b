-- ===== src/Value/Add.antt =====
-- Both `add`s, on every branch: the limits on the sizes, an offset that does not fit, and success
-- (src/axoncache/cache/value/LinearProbeValue.cpp).
use axon_cache.Prelude.{
  ℕ, ◌+◌, ◌*◌, ◌/◌, ◌^◌, ◌≤◌, ◌<◌, ◌≡◌, inl, inr, Bytes, length, max, ok, throw, bit_and, ltb, ◌==◌,
  if◌then◌else◌, false, Bool-cases, offset_bits_too_short, arith,
}
use axon_cache.Ram.{store, le}
use axon_cache.Domain.{key_length_limit, value_length_limit}
use axon_cache.Memory.{Memory}
use axon_cache.Memory.Laws.{IsHeap, grow-Grown}
use axon_cache.Table.{Entry}
use axon_cache.Probe.{Probe, offset_mask, record_size}
use axon_cache.Value.{
  calculate_size, calculate_index_size, index_bytes, dedup_flag, dedup_extended_flag, add_to_end,
  add_index_to_end, fill_slot,
}
use axon_cache.Value.Write.{write_entry}
use axon_cache.Value.Slot.{IsProbe, slot_value, offset_of, masked-fits, fits-masked}

-- The record of a value that is stored as it is.
abbrev pub value_entry : Bytes → ℕ → Bytes → Entry
value_entry key type value = record {
  key = key;
  dedup = 0;
  type = type;
  val_size = length value;
  payload = value;
}

-- The record of a frequent value, which stores the value's index.
abbrev pub index_entry : Bytes → ℕ → ℕ → ℕ → Entry
index_entry key type value_size index = record {
  key = key;
  dedup = if ltb index 256 then dedup_flag else dedup_extended_flag;
  type = type;
  val_size = value_size;
  payload = index_bytes index;
}

abbrev pub entry_size : Entry → ℕ
entry_size e = record_size + length e.key + length e.payload

-- The capacity grows by half of the old one at most beyond what is needed.
abbrev pub IsGrown : Memory → Entry → Memory → Type 0
IsGrown m e r =
    r.real_data_size ≤ max m.real_data_size (m.data_size + entry_size e + m.real_data_size / 2)

-- The memory once `e` stands behind the data.
pub record Appended (m : Memory) (e : Entry) (r : Memory) : Type 0 where
  pub heap : IsHeap r
  pub size : r.data_size ≡ m.data_size + entry_size e
  pub bytes : r.bytes ≡ write_entry m.bytes m.data_size e
  pub same_block : m.data_size + entry_size e < m.real_data_size → r.block ≡ m.block
  pub moved : m.real_data_size ≤ m.data_size + entry_size e → r.block ≡ m.block + 1
  pub capacity : IsGrown m e r

-- The memory once the slot at `offset` points to that record as well.
pub record Added (p : Probe) (offset hashcode : ℕ) (m : Memory) (e : Entry) (r : Memory)
    : Type 0 where
  pub heap : IsHeap r
  pub size : r.data_size ≡ m.data_size + entry_size e
  pub bytes :
      r.bytes
      ≡ store 8
          (write_entry m.bytes m.data_size e)
          offset
          (slot_value p hashcode (offset_of p m.data_size))
  pub capacity : IsGrown m e r

-- A block that can grow by the size of the record without a wrap-around.
pub record CanGrow (m : Memory) (e : Entry) : Type 0 where
  pub heap : IsHeap m
  pub no_wrap : m.data_size + entry_size e + m.real_data_size / 2 < 2 ^ 64

length-index_bytes : (index : ℕ) → length (index_bytes index) ≡ (if ltb index 256 then 1 else 2)
unfolding index_bytes le
length-index_bytes index = elim (Bool-cases (ltb index 256)) [
  | inl small ↦ rw small
  | inr large ↦ rw large
]

module _ (m : Memory) (key : Bytes) (type : ℕ) where
  pub add_to_end-Appended :
      (value : Bytes)
      → length key ≤ key_length_limit
      → length value ≤ value_length_limit
      → CanGrow m (value_entry key type value)
      → (r : Memory) × (add_to_end key type value m ≡ (ok m.data_size, r))
        × Appended m (value_entry key type value) r
  unfolding add_to_end
  add_to_end-Appended value hk hv g =
      let (r, run, w) =
        grow-Grown m (calculate_size key value) g.heap (unfold calculate_size in g.no_wrap) in
      (
        record r.1 { bytes = write_entry r.1.bytes r.0 (value_entry key type value) },
        ground (arith, run, w.offset),
        record {
          heap = record { heap = w.valid.heap; fits = w.valid.fits };
          size = w.size;
          bytes = rw (w.offset, w.kept);
          same_block = unfold calculate_size in w.same_block;
          moved = unfold calculate_size in w.moved;
          capacity = unfold calculate_size in w.capacity;
        },
      )

  pub add_index_to_end-Appended :
      (value_size index : ℕ)
      → length key ≤ key_length_limit
      → CanGrow m (index_entry key type value_size index)
      → (r : Memory) × (add_index_to_end key type value_size index m ≡ (ok m.data_size, r))
        × Appended m (index_entry key type value_size index) r
  unfolding add_index_to_end
  add_index_to_end-Appended value_size index hk g =
      let size_eq : calculate_index_size key index
          ≡ entry_size (index_entry key type value_size index) =
        unfold calculate_index_size in omega (arith, length-index_bytes index) in
      let short : ltb key_length_limit (length key) ≡ false = ground arith in
      let (r, run, w) =
        grow-Grown m (calculate_index_size key index) g.heap (omega (arith, g.no_wrap, size_eq)) in
      (
        record r.1 { bytes = write_entry r.1.bytes r.0 (index_entry key type value_size index) },
        rw (short, run, w.offset),
        record {
          heap = record { heap = w.valid.heap; fits = w.valid.fits };
          size = omega (arith, w.size, size_eq);
          bytes = rw (w.offset, w.kept);
          same_block = λ h. w.same_block (omega (arith, size_eq));
          moved = λ h. w.moved (omega (arith, size_eq));
          capacity = omega (arith, w.capacity, size_eq);
        },
      )

-- The slot is filled when the offset of the record fits its bits.
module _ (p : Probe) (v : IsProbe p) (m : Memory) (e : Entry) (offset hashcode : ℕ) where
  module _ (r : Memory) (w : Appended m e r) (above : 8 * p.number_of_key_slots ≤ m.data_size)
      (small : m.data_size < 2 ^ 64) where
    pub fill_slot-Added :
        offset_of p m.data_size < 2 ^ p.offset_bits
        → (s : Memory) × (fill_slot p offset hashcode (ok m.data_size, r) ≡ (ok 0, s))
          × Added p offset hashcode m e s
    unfolding fill_slot
    fill_slot-Added fits = (
      record r { bytes = store 8 r.bytes offset (slot_value p hashcode (offset_of p m.data_size)) },
      ground (arith, fits-masked p v m.data_size above small fits),
      record {
        heap = record { heap = w.heap.heap; fits = w.heap.fits };
        size = w.size;
        bytes = rw w.bytes;
        capacity = w.capacity;
      },
    )

    -- Otherwise the record stays behind the data, and no slot points to it.
    pub fill_slot-throw :
        2 ^ p.offset_bits ≤ offset_of p m.data_size
        → fill_slot p offset hashcode (ok m.data_size, r) ≡ (throw offset_bits_too_short, r)
    unfolding fill_slot
    fill_slot-throw long =
        elim (Bool-cases
          (bit_and (offset_of p m.data_size) (offset_mask p) == offset_of p m.data_size)) [
            | inl same ↦
                absurd (omega (arith, masked-fits p v m.data_size above small (ground arith)))
            | inr other ↦ rw other
          ]
