-- ===== src/Dedup/Record.antt =====
-- The record that a value of a dedup cache becomes (src/axoncache/cache/LinearProbeDedupCache.cpp,
-- src/axoncache/cache/value/LinearProbeValue.cpp).
use axon_cache.Prelude.{
  ℕ, ◌*◌, ◌%◌, ◌^◌, ◌≤◌, ◌<◌, ◌≡◌, refl, ◌∙◌, Option, none, some, Bytes, ok, arith, length, u16,
  u32, if◌then◌else◌, ltb, ◌≢◌, List, get_elem?,
}
use axon_cache.Domain.{CacheValueType, type_code, key_length_limit, value_length_limit}
use axon_cache.Memory.{Memory}
use axon_cache.Table.{Entry}
use axon_cache.Probe.{Probe}
use axon_cache.Value
use axon_cache.Value.{write_record, index_bytes, dedup_flag, dedup_extended_flag}
use axon_cache.Value.Write.{IsEntry}
use axon_cache.Value.Slot.{IsProbe, offset_of}
use axon_cache.Value.Add.{
  value_entry, index_entry, CanGrow, Appended, Added, add_to_end-Appended,
  add_index_to_end-Appended, fill_slot-Added,
}
use axon_cache.Cache.{Hasher}
use axon_cache.Cache.Outcome.{type_code-lt}
use axon_cache.Dedup.{add_value}

abbrev dedup_for : Option ℕ → ℕ
dedup_for none = 0
dedup_for (some index) = if ltb index 256 then dedup_flag else dedup_extended_flag

abbrev val_size_for : Bytes → Option ℕ → ℕ
val_size_for value none = length value
val_size_for value (some index) = length value % 2 ^ 24

abbrev payload_for : Bytes → Option ℕ → Bytes
payload_for value none = value
payload_for value (some index) = index_bytes index

-- The record that a value becomes: a `value_entry`, or an `index_entry` whose size is cut to the 24 bits
-- of its field.
abbrev pub entry_for : Bytes → CacheValueType → Bytes → Option ℕ → Entry
entry_for key type value index = record {
  key = key;
  dedup = dedup_for index;
  type = type_code type;
  val_size = val_size_for value index;
  payload = payload_for value index;
}

Appended-cut :
    (m r : Memory) (key : Bytes) (type size index : ℕ)
    → Appended m (index_entry key type (u32 size) index) r
    → Appended m (index_entry key type (size % 2 ^ 24) index) r
unfolding write_record
Appended-cut m r key type size index a = record {
  heap = a.heap;
  size = a.size;
  bytes =
      let same : u32 size % 2 ^ 24 ≡ size % 2 ^ 24 % 2 ^ 24 = omega arith in a.bytes ∙ rw same refl;
  same_block = a.same_block;
  moved = a.moved;
  capacity = a.capacity;
}

-- Both ways to add a value end in its record and in a slot that points to it.
module _ (h : Hasher) (key : Bytes) (type : CacheValueType) (value : Bytes) (p : Probe)
    (v : IsProbe p) (m : Memory) (o : ℕ) (short_key : length key ≤ key_length_limit)
    (above : 8 * p.number_of_key_slots ≤ m.data_size)
    (fits : offset_of p m.data_size < 2 ^ p.offset_bits) where
  pub add_value-Added :
      (index : Option ℕ)
      → (index ≡ none → length value ≤ value_length_limit)
      → ((i : ℕ) → index ≡ some i → i < 65536)
      → CanGrow m (entry_for key type value index)
      → (s : Memory) × (add_value h key type value p index o m ≡ (ok 0, s))
        × Added p o (h.hash key) m (entry_for key type value index) s
  unfolding add_value Value.add Value.add_index
  add_value-Added none short small g =
      let (r, run, a) = add_to_end-Appended m key (type_code type) value short_key (short refl) g in
      let (s, filled, added) =
        fill_slot-Added p v m _ o (h.hash key) r a above (omega (arith, g.no_wrap)) fits in
      (s, rw run filled, added)
  add_value-Added (some i) short small g =
      let same : u16 i ≡ i = omega (arith, small i refl) in
      let (r, run, a) =
        add_index_to_end-Appended m key (type_code type) (u32 (length value)) i short_key
          (record { heap = g.heap; no_wrap = g.no_wrap }) in
      let (s, filled, added) =
        fill_slot-Added p v m _ o (h.hash key) r
          (Appended-cut m r key (type_code type) (length value) i a) above
          (omega (arith, g.no_wrap)) fits in
      (s, rw (same, run) filled, added)

pub entry_for-IsEntry :
    (key : Bytes) (type : CacheValueType) (value : Bytes) (index : Option ℕ)
    → length key ≤ key_length_limit
    → (index ≡ none → length value ≤ value_length_limit)
    → IsEntry (entry_for key type value index)
entry_for-IsEntry key type value none hk hv =
    let short = hv refl in
    record {
      short_key = omega arith;
      dedup_bits = omega arith;
      type_bits = type_code-lt type;
      val_size_bits = omega arith;
    }
entry_for-IsEntry key type value (some i) hk hv = record {
  short_key = omega arith;
  dedup_bits = ground arith;
  type_bits = type_code-lt type;
  val_size_bits = omega arith;
}

-- The record that holds a value: its index if it is one of the frequent values, and the value if it is
-- none.
pub data StoredAs (values : List Bytes) (key : Bytes) (type : CacheValueType) (value : Bytes)
    : Entry → Type 0 where
  by_index :
      (i : ℕ)
      → i < 65536
      → get_elem? values i ≡ some value
      → StoredAs values key type value (index_entry key (type_code type) (length value % 2 ^ 24) i)
  by_value :
      ((i : ℕ) → get_elem? values i ≢ some value)
      → StoredAs values key type value (value_entry key (type_code type) value)
