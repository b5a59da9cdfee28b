-- ===== src/Probe.antt =====
-- LinearProbe<8> (include/axoncache/cache/probe/LinearProbe.h). The masks and sizes that the class
-- keeps in fields are functions of its two parameters. `none` stands for the negative statuses
-- AXONCACHE_KEY_NOT_FOUND and AXONCACHE_KEY_EXISTS.
pub mod Holds
pub mod Find
pub mod Ends
use axon_cache.Prelude.{
  ℕ, zero, suc, ◌+◌, ◌-◌, ◌*◌, ◌/◌, ◌%◌, ◌^◌, Bool, ◌||◌, Option, none, some, bit_and, u64, u32,
  ltb, ◌==◌, if◌then◌else◌, Bytes, length, Result, ok, throw, undefined, diverges, ◌>>=◌, false,
  offset_bits_out_of_range,
}
use axon_cache.Ram.{Ram, load, memcmp_eq}
use axon_cache.Domain.{min_offset_bits, max_offset_bits}

pub record Probe : Type 0 where
  pub offset_bits : ℕ
  pub number_of_key_slots : ℕ

unfoldable pub new_probe : ℕ → ℕ → Result Probe
new_probe bits slots =
    if ltb bits min_offset_bits || ltb max_offset_bits bits
    then throw offset_bits_out_of_range
    else ok (record { offset_bits = bits; number_of_key_slots = slots })

unfoldable pub hashcode_bits : Probe → ℕ
hashcode_bits p = 64 - p.offset_bits

-- `( ~0UL >> mOffsetBits ) << mOffsetBits`
unfoldable pub hashcode_mask : Probe → ℕ
hashcode_mask p = u64 ((2 ^ 64 - 1) / 2 ^ p.offset_bits * 2 ^ p.offset_bits)

unfoldable pub offset_mask : Probe → ℕ
offset_mask p = 2 ^ p.offset_bits - 1

unfoldable pub keyspace_size_offset : Probe → ℕ
keyspace_size_offset p = (u64 (p.number_of_key_slots * 8) + 2 ^ 64 - 8) % 2 ^ 64

unfoldable pub key_slot_to_ptr_offset : ℕ → ℕ
key_slot_to_ptr_offset key_slot = u64 (key_slot * 2 ^ 3)

unfoldable pub calculate_key_space_size : Probe → ℕ
unfolding key_slot_to_ptr_offset
calculate_key_space_size p = key_slot_to_ptr_offset p.number_of_key_slots

-- sizeof( LinearProbeRecord )
abbrev pub record_size : ℕ
record_size = 6

-- The packed record: `keySize`, then one 32-bit word with `dedupIndex` in its low 5 bits, `type` in
-- the next 3 and `valSize` in the upper 24.
unfoldable pub key_size_at : Ram → ℕ → ℕ
key_size_at m a = load 2 m a

unfoldable pub dedup_index_at : Ram → ℕ → ℕ
dedup_index_at m a = load 4 m (a + 2) % 2 ^ 5

unfoldable pub type_at : Ram → ℕ → ℕ
type_at m a = load 4 m (a + 2) / 2 ^ 5 % 2 ^ 3

unfoldable pub val_size_at : Ram → ℕ → ℕ
val_size_at m a = load 4 m (a + 2) / 2 ^ 8

-- `*( reinterpret_cast<const uint64_t *>( keySpacePtr ) + slotId )`
unfoldable pub slot_at : Ram → ℕ → ℕ
slot_at m slot_id = load 8 m (8 * slot_id)

unfoldable pub record_address : Probe → ℕ → ℕ
unfolding offset_mask keyspace_size_offset
record_address p slot = u64 (bit_and slot (offset_mask p) + keyspace_size_offset p)

-- The hash bits of the slot and the key behind it are those that are looked for. Of the record, which
-- is read when the hash bits are, no byte may stand behind the `size` bytes of the data.
unfoldable pub slot_matches : Probe → Bytes → ℕ → ℕ → Ram → ℕ → Result Bool
unfolding hashcode_mask record_address key_size_at
slot_matches p key cmp size m slot =
    let a = record_address p slot in
    if bit_and slot (hashcode_mask p) == cmp
    then (if ltb size (a + record_size)
        then undefined
        else if key_size_at m a == length key
        then (if ltb size (a + record_size + length key)
            then undefined
            else ok (memcmp_eq m (a + record_size) key))
        else ok false)
    else ok false

unfoldable pub next_slot : Probe → ℕ → ℕ
next_slot p slot_id = if slot_id + 1 == p.number_of_key_slots then 0 else slot_id + 1

-- The offset of the key's slot in the key space, and the slot.
pub find_loop : ℕ → Probe → Bytes → ℕ → ℕ → Ram → ℕ → Result (Option (ℕ × ℕ))
find_loop zero p key cmp size m slot_id = diverges
find_loop (suc fuel) p key cmp size m slot_id =
    let slot = slot_at m slot_id in
    let next = find_loop fuel p key cmp size m (next_slot p slot_id) in
    if ltb size (8 * slot_id + 8)
    then undefined
    else if bit_and slot (offset_mask p) == 0
    then ok none
    else (slot_matches p key cmp size m slot >>= λ same.
        (if same then ok (some (key_slot_to_ptr_offset slot_id, slot)) else next))

-- One round for each slot: the loop then comes back to where it started. The key space is the start
-- of `size` bytes.
unfoldable pub find_key_slot_offset : Probe → Bytes → ℕ → ℕ → Ram → Result (Option (ℕ × ℕ))
unfolding find_loop hashcode_mask
find_key_slot_offset p key hashcode size m =
    if p.number_of_key_slots == 0
    then undefined
    else find_loop p.number_of_key_slots p key (bit_and hashcode (hashcode_mask p)) size m
        (hashcode % p.number_of_key_slots)

-- The offset of an empty slot, unless the key is there already, and the collisions.
pub find_free_loop : ℕ → Probe → Bytes → ℕ → ℕ → Ram → ℕ → ℕ → Result (Option ℕ × ℕ)
find_free_loop zero p key cmp size m slot_id collisions = diverges
find_free_loop (suc fuel) p key cmp size m slot_id collisions =
    let slot = slot_at m slot_id in
    let next = find_free_loop fuel p key cmp size m (next_slot p slot_id) (u32 (collisions + 1)) in
    if ltb size (8 * slot_id + 8)
    then undefined
    else if bit_and slot (offset_mask p) == 0
    then ok (some (key_slot_to_ptr_offset slot_id), collisions)
    else (slot_matches p key cmp size m slot >>= λ same.
        (if same then ok (none, u32 (collisions + 1)) else next))

unfoldable pub find_free_key_slot_offset : Probe → Bytes → ℕ → ℕ → Ram → Result (Option ℕ × ℕ)
unfolding find_free_loop hashcode_mask
find_free_key_slot_offset p key hashcode size m =
    if p.number_of_key_slots == 0
    then undefined
    else find_free_loop p.number_of_key_slots p key (bit_and hashcode (hashcode_mask p)) size m
        (hashcode % p.number_of_key_slots) 0
