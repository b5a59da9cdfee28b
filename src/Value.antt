-- ===== src/Value.antt =====
-- LinearProbeValue (src/axoncache/cache/value/LinearProbeValue.cpp and its header). It is built from
-- the probe's parameters, and is given the probe here.
pub mod Write
pub mod Slot
pub mod Add
use axon_cache.Prelude.{
  ℕ, ◌+◌, ◌-◌, ◌*◌, ◌%◌, ◌^◌, Bool, not, ◌&&◌, Option, none, some, bit_and, bit_or, u64, u32, u16,
  ltb, ◌==◌, if◌then◌else◌, Bytes, length, is_empty, get_elem?, List, [], ◌>>=◌, true, false,
  Result, ok, throw, undefined, on_ok, key_size_too_large, value_size_too_large,
  offset_bits_too_short,
}
use axon_cache.Ram.{Ram, load, store, copy, view, le}
use axon_cache.Domain.{CacheValueType, string, value_type, key_length_limit, value_length_limit}
use axon_cache.Memory.{Memory, grow}
use axon_cache.Probe.{
  Probe, hashcode_mask, offset_mask, keyspace_size_offset, record_size, key_size_at, dedup_index_at,
  type_at, val_size_at, record_address,
}

abbrev pub dedup_flag : ℕ
dedup_flag = 16

abbrev pub dedup_extended_flag : ℕ
dedup_extended_flag = 1

unfoldable pub calculate_size : Bytes → Bytes → ℕ
calculate_size key value = record_size + length key + length value

unfoldable pub calculate_index_size : Bytes → ℕ → ℕ
calculate_index_size key index = record_size + length key + (if ltb index 256 then 1 else 2)

-- The assignments to the fields of the record at `a`, and the bytes behind it.
unfoldable pub write_record : Ram → ℕ → Bytes → ℕ → ℕ → ℕ → Bytes → Ram
write_record m a key dedup type val_size payload =
    let word = dedup % 2 ^ 5 + type % 2 ^ 3 * 2 ^ 5 + val_size % 2 ^ 24 * 2 ^ 8 in
    let fields = store 4 (store 2 m a (u16 (length key))) (a + 2) word in
    copy (copy fields (a + record_size) key) (a + record_size + length key) payload

unfoldable pub add_to_end : Bytes → ℕ → Bytes → Memory → Result ℕ × Memory
unfolding calculate_size write_record
add_to_end key type value memory =
    if ltb key_length_limit (length key)
    then (throw key_size_too_large, memory)
    else if ltb value_length_limit (length value)
    then (throw value_size_too_large, memory)
    else on_ok (grow (calculate_size key value) memory) memory λ (a, grown).
      (ok a, record grown { bytes = write_record grown.bytes a key 0 type (length value) value })

-- The bytes of the index: one if it is small, else two.
unfoldable pub index_bytes : ℕ → Bytes
index_bytes index = if ltb index 256 then le 1 index else le 2 index

unfoldable pub add_index_to_end : Bytes → ℕ → ℕ → ℕ → Memory → Result ℕ × Memory
unfolding calculate_index_size write_record index_bytes
add_index_to_end key type value_size index memory =
    if ltb key_length_limit (length key)
    then (throw key_size_too_large, memory)
    else on_ok (grow (calculate_index_size key index) memory) memory λ (a, grown). (
      ok a,
      record grown {
        bytes =
            write_record grown.bytes a key
              (if ltb index 256 then dedup_flag else dedup_extended_flag) type value_size
              (index_bytes index);
      },
    )

-- What both `add`s do with the offset of the new record: check that it fits, and fill the slot.
unfoldable pub fill_slot : Probe → ℕ → ℕ → Result ℕ × Memory → Result ℕ × Memory
unfolding hashcode_mask offset_mask keyspace_size_offset
fill_slot p key_space_offset hashcode (r, memory) = on_ok r memory λ a.
    let new_value_offset = (a + 2 ^ 64 - keyspace_size_offset p) % 2 ^ 64 in
    let slot_offset = bit_and new_value_offset (offset_mask p) in
    if not (slot_offset == new_value_offset) then (throw offset_bits_too_short, memory) else (
      ok 0,
      record memory {
        bytes =
            store 8 memory.bytes key_space_offset
              (bit_or (bit_and hashcode (hashcode_mask p)) slot_offset);
      },
    )

unfoldable pub add : Probe → ℕ → Bytes → ℕ → ℕ → Bytes → Memory → Result ℕ × Memory
unfolding add_to_end fill_slot
add p key_space_offset key hashcode type value memory =
    fill_slot p key_space_offset hashcode (add_to_end key type value memory)

unfoldable pub add_index : Probe → ℕ → Bytes → ℕ → ℕ → ℕ → ℕ → Memory → Result ℕ × Memory
unfolding add_index_to_end fill_slot
add_index p key_space_offset key hashcode type value_size index memory =
    fill_slot p key_space_offset hashcode (add_index_to_end key type value_size index memory)

-- `{ dataPtr + record->keySize, record->valSize }`
unfoldable pub value_at : Ram → ℕ → Bytes
unfolding key_size_at val_size_at
value_at m a = view m (a + record_size + key_size_at m a) (val_size_at m a)

-- `get` with `isExist`, which it never sets; a mismatch of types reads as the empty string.
unfoldable pub get : Probe → Ram → Option ℕ → ℕ → Bytes
unfolding record_address type_at value_at
get p m none type = []
get p m (some key_space_offset) type =
    let a = record_address p (load 8 m key_space_offset) in
    if not (type_at m a == type % 2 ^ 8) then [] else value_at m a

-- `frequentValues[ index ]`, which is undefined behaviour past the end
unfoldable pub frequent_value : List Bytes → ℕ → Result Bytes
frequent_value values index = elim (get_elem? values index) [ none ↦ undefined | some v ↦ ok v ]

-- The value of a record: a frequent value by its index, or the bytes behind the key.
unfoldable pub decode_value : Ram → ℕ → List Bytes → Result Bytes
unfolding dedup_index_at key_size_at value_at frequent_value
decode_value m a frequent_values =
    let payload = a + record_size + key_size_at m a in
    if not (bit_and (dedup_index_at m a) dedup_flag == 0) && not (is_empty frequent_values)
    then frequent_value frequent_values (load 1 m payload)
    else if not (bit_and (dedup_index_at m a) dedup_extended_flag == 0)
        && not (is_empty frequent_values)
    then frequent_value frequent_values (load 2 m payload)
    else ok (value_at m a)

unfoldable pub get_from_slot : Probe → Ram → ℕ → ℕ → List Bytes → Result Bytes
unfolding record_address type_at decode_value
get_from_slot p m slot type frequent_values =
    let a = record_address p slot in
    if not (type_at m a == type % 2 ^ 8) then ok [] else decode_value m a frequent_values

unfoldable pub get_with_type_from_slot :
    Probe → Ram → ℕ → List Bytes → Result (Bytes × CacheValueType)
unfolding record_address type_at decode_value
get_with_type_from_slot p m slot frequent_values = do
  let a = record_address p slot
  v ← decode_value m a frequent_values
  ok (v, value_type (type_at m a))

-- The default value of the pair has the type code 0.
unfoldable pub get_with_type : Probe → Ram → Option ℕ → List Bytes → Result (Bytes × CacheValueType)
unfolding get_with_type_from_slot
get_with_type p m none frequent_values = ok ([], string)
get_with_type p m (some key_space_offset) frequent_values =
    get_with_type_from_slot p m (load 8 m key_space_offset) frequent_values

unfoldable pub contains : Option ℕ → Bool
contains none = false
contains (some key_space_offset) = true
