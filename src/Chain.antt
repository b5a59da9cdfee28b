-- ===== src/Chain.antt =====
-- BucketChainCache: SimpleProbe (include/axoncache/cache/probe/SimpleProbe.h), ChainedValue
-- (src/axoncache/cache/value/ChainedValue.cpp), and HashedCacheBase over them
-- (include/axoncache/cache/base/HashedCacheBase.h, src/axoncache/cache/base/HashedCacheBase.cpp).
-- The loops over a chain run on fuel of one step more than there are bytes: a walk that goes on
-- longer has read a link twice, and does not end. A read behind the data is undefined behaviour.
pub mod Layout
pub mod Walks
pub mod Append
pub mod Models
pub mod Write
pub mod Put
pub mod Lookup
pub mod New
pub mod Run
use axon_cache.Prelude.{
  ℕ, zero, suc, ◌+◌, ◌-◌, ◌*◌, ◌/◌, ◌%◌, ◌^◌, Bool, true, false, not, ◌&&◌, Option, none, some,
  bit_and, bit_or, max, leb, ltb, ◌==◌, if◌then◌else◌, u16, u32, u64, List, [], Bytes, length,
  Result, ok, throw, undefined, diverges, on_ok, ◌>>=◌, key_space_is_full, key_size_too_large,
  value_size_too_large,
}
use axon_cache.Ram.{Ram, load, store, copy, view, memcmp_eq}
use axon_cache.Domain.{CacheValueType, string, type_code, key_length_limit, value_length_limit}
use axon_cache.Memory.{Memory, allocate, grow}
use axon_cache.Math.{round_up_to_power_of_two}
use axon_cache.Cache.{Hasher, FloatOps, max_entries}

-- `SimpleProbe`: the offset of the slot of a hash code.
unfoldable pub find_slot_offset : ℕ → ℕ → ℕ
find_slot_offset number_of_key_slots hashcode =
    u64 (bit_and hashcode (number_of_key_slots - 1) * 2 ^ 3)

-- The bytes in front of the key: the next pointer, the key's size, and type and size of the value.
abbrev pub head_size : ℕ
head_size = 14

unfoldable pub calculate_chained_size : Bytes → Bytes → ℕ
calculate_chained_size key value = 8 + 2 + 1 + 3 + length key + length value

-- The loop of `add`: the offset of the link at the end of the chain, and the links on the way.
unfoldable pub end_of_chain : ℕ → Ram → ℕ → ℕ → ℕ → Result (ℕ × ℕ)
end_of_chain zero m size offset collisions = diverges
end_of_chain (suc fuel) m size offset collisions =
    let next = load 8 m offset in
    let rest = end_of_chain fuel m size next (u32 (collisions + 1)) in
    if ltb size (offset + 8) then undefined else if next == 0 then ok (offset, collisions) else rest

-- `addToEnd`, the record.
unfoldable pub write_chained : Ram → ℕ → Bytes → ℕ → Bytes → Ram
write_chained m a key type value =
    let word = bit_or (u32 (type * 2 ^ 24)) (bit_and (length value) 16777215) in
    let fields = store 4 (store 2 (store 8 m a 0) (a + 8) (u16 (length key))) (a + 10) word in
    copy (copy fields (a + head_size) key) (a + head_size + length key) value

-- `addToEnd`
unfoldable pub add_chained_to_end : Bytes → ℕ → Bytes → Memory → Result ℕ × Memory
unfolding calculate_chained_size write_chained
add_chained_to_end key type value memory =
    if ltb key_length_limit (length key)
    then (throw key_size_too_large, memory)
    else if ltb value_length_limit (length value)
    then (throw value_size_too_large, memory)
    else on_ok (grow (calculate_chained_size key value) memory) memory
        λ (a, grown). (ok a, record grown { bytes = write_chained grown.bytes a key type value })

-- `add`
unfoldable pub add_chained : ℕ → Bytes → ℕ → Bytes → Memory → Result ℕ × Memory
unfolding end_of_chain add_chained_to_end
add_chained key_space_offset key type value memory =
    on_ok (end_of_chain (memory.data_size + 1) memory.bytes memory.data_size key_space_offset 0)
      memory
      λ (value_offset, collisions).
        let (r, added) = add_chained_to_end key type value memory in
        on_ok r added λ new_value_offset. (
          ok collisions,
          record added { bytes = store 8 added.bytes value_offset new_value_offset },
        )

-- The test of a record for the key.
unfoldable pub has_key : Ram → ℕ → Bytes → Bool
has_key m a key = load 2 m (a + 8) == length key && memcmp_eq m (a + head_size) key

-- The loop that `get` and `contains` share: the record with the key.
unfoldable pub find_in_chain : ℕ → Ram → ℕ → ℕ → Bytes → Result (Option ℕ)
unfolding has_key
find_in_chain zero m size offset key = diverges
find_in_chain (suc fuel) m size offset key =
    let rest = find_in_chain fuel m size (load 8 m offset) key in
    if offset == 0
    then ok none
    else if ltb size (offset + 10)
    then undefined
    else if has_key m offset key
    then ok (some offset)
    else rest

-- What `get` returns for a record, with its `isExist`.
unfoldable pub chained_value : Ram → Bytes → ℕ → Option ℕ → Bytes × Bool
chained_value m key type none = ([], false)
chained_value m key type (some a) =
    let value_size_and_type = load 4 m (a + 10) in
    if not (value_size_and_type / 2 ^ 24 % 2 ^ 8 == type)
    then ([], false)
    else (view m (a + head_size + length key) (bit_and value_size_and_type 16777215), true)

-- `get` with `isExist`
unfoldable pub get_chained : Ram → ℕ → ℕ → Bytes → ℕ → Result (Bytes × Bool)
unfolding find_in_chain chained_value
get_chained m size key_space_offset key type = do
  found ← find_in_chain (size + 1) m size (load 8 m key_space_offset) key
  ok (chained_value m key type found)

abbrev pub is_some : Option ℕ → Bool
is_some none = false
is_some (some a) = true

-- `contains`
unfoldable pub contains_chained : Ram → ℕ → ℕ → Bytes → Result Bool
unfolding find_in_chain
contains_chained m size key_space_offset key = do
  found ← find_in_chain (size + 1) m size (load 8 m key_space_offset) key
  ok (is_some found)

-- The state of HashedCacheBase: `key_space_block` is the block that `mKeySpacePtr` points into.
pub record ChainCache : Type 0 where
  pub number_of_key_slots : ℕ
  pub memory : Memory
  pub key_space_block : ℕ
  pub max_number_of_entries : ℕ
  pub max_load_factor : ℕ
  pub number_of_entries : ℕ
  pub max_collisions : ℕ

-- The constructor for a new cache.
unfoldable pub new_chain_cache : FloatOps → ℕ → ℕ → Memory → Result ChainCache
new_chain_cache floats number_of_key_slots max_load_factor handler = do
  max_number_of_entries ← max_entries floats number_of_key_slots max_load_factor
  slots ← round_up_to_power_of_two number_of_key_slots
  memory ← allocate (u64 (slots * 2 ^ 3)) handler
  ok (record {
    number_of_key_slots = slots;
    memory = memory;
    key_space_block = memory.block;
    max_number_of_entries = max_number_of_entries;
    max_load_factor = max_load_factor;
    number_of_entries = 0;
    max_collisions = 0;
  })

-- `putInternal`
unfoldable pub put_chain :
    Hasher → Bytes → CacheValueType → Bytes → ChainCache → Result (Bool × ℕ) × ChainCache
unfolding find_slot_offset add_chained
put_chain h key type value c =
    if leb c.max_number_of_entries c.number_of_entries
    then (throw key_space_is_full, c)
    else (let offset = find_slot_offset c.number_of_key_slots (h.hash key) in
        let (r, memory) = add_chained offset key (type_code type) value c.memory in
        on_ok r (record c { memory = memory })
          λ in_data.
            let collisions = max 0 in_data in
            (
              ok (true, collisions),
              record c {
                memory = memory;
                key_space_block = memory.block;
                max_collisions = max collisions c.max_collisions;
                number_of_entries = u64 (c.number_of_entries + 1);
              },
            ))

-- The bytes behind `mKeySpacePtr`, if they have not been freed.
unfoldable pub chain_space : ChainCache → Result Ram
chain_space c = if c.key_space_block == c.memory.block then ok c.memory.bytes else undefined

-- `getInternal` with `isExist`, and with the hash, which is reported in any case: the probe always
-- has a slot.
unfoldable pub get_chain : Hasher → Bytes → CacheValueType → ChainCache → Result (Bytes × Bool × ℕ)
unfolding find_slot_offset get_chained chain_space
get_chain h key type c = do
  m ← chain_space c
  let offset = find_slot_offset c.number_of_key_slots (h.hash key)
  (value, is_exist) ← get_chained m c.memory.data_size offset key (type_code type)
  ok (value, is_exist, h.hash key)

-- `getWithTypeInternal`: `ChainedValue::getWithType` returns the default pair.
unfoldable pub get_with_type_chain : Hasher → Bytes → ChainCache → (Bytes × CacheValueType) × ℕ
get_with_type_chain h key c = (([], string), h.hash key)

-- `contains`
unfoldable pub contains_chain : Hasher → Bytes → ChainCache → Result (Bool × ℕ)
unfolding find_slot_offset contains_chained chain_space
contains_chain h key c = do
  m ← chain_space c
  let offset = find_slot_offset c.number_of_key_slots (h.hash key)
  found ← contains_chained m c.memory.data_size offset key
  ok (found, h.hash key)
