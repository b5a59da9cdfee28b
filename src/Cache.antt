-- ===== src/Cache.antt =====
-- The writable side of HashedCacheBase over LinearProbe and LinearProbeValue
-- (include/axoncache/cache/base/HashedCacheBase.h, src/axoncache/cache/base/HashedCacheBase.cpp),
-- shared by LinearProbeCache and LinearProbeDedupCache.
pub mod Models
pub mod Put
pub mod Step
pub mod Outcome
pub mod Lookup
pub mod New
pub mod Run
pub mod Dangling
use axon_cache.Prelude.{
  ℕ, ◌+◌, Bool, true, false, Option, none, some, max, leb, ◌==◌, if◌then◌else◌, u64, Bytes, length,
  List, [], Result, ok, throw, undefined, ◌>>=◌, ◌>>◌, guard, on_ok, ◌&&◌, ◌≡◌, ◌<◌, ◌^◌, ◌≤◌,
  key_space_is_full, load_factor_too_large,
}
use axon_cache.Ram.{Ram}
use axon_cache.Domain.{CacheValueType, type_code}
use axon_cache.Memory.{Memory, allocate}
use axon_cache.Probe.{
  Probe, new_probe, calculate_key_space_size, find_key_slot_offset, find_free_key_slot_offset,
}
use axon_cache.Value

-- xxHash, vendored as include/axoncache/common/xxhash.h: a function into `uint64_t`.
pub record Hasher : Type 0 where
  pub hash : Bytes → ℕ
  pub hash_lt : (k : Bytes) → hash k < 2 ^ 64

-- What the code asks of `double`s, by their bit patterns: `maxLoadFactor > 0.8`, and
-- `numberOfKeySlots * maxLoadFactor` as a `uint64_t`, which is undefined unless the whole part of the
-- product is one. A number of at least 0 that is not above 0.8 leaves a slot free.
pub record FloatOps : Type 0 where
  pub exceeds_linear_max : ℕ → Bool
  pub is_non_negative : ℕ → Bool
  pub is_converted : ℕ → ℕ → Bool
  pub scale : ℕ → ℕ → ℕ
  pub scale_lt :
      (n d : ℕ)
      → 1 ≤ n
      → n < 2 ^ 64
      → is_non_negative d ≡ true
      → exceeds_linear_max d ≡ false
      → (is_converted n d ≡ true) × (scale n d < n)

-- `key_space_block` is the block that `mKeySpacePtr` points into. `max_load_factor` is the bit
-- pattern of the `double`.
pub record Cache : Type 0 where
  pub probe : Probe
  pub memory : Memory
  pub key_space_block : ℕ
  pub max_number_of_entries : ℕ
  pub max_load_factor : ℕ
  pub number_of_entries : ℕ
  pub max_collisions : ℕ

-- The initializer of `mMaxNumberOfEntries`.
abbrev pub max_entries : FloatOps → ℕ → ℕ → Result ℕ
max_entries floats number_of_key_slots max_load_factor =
    if floats.is_converted number_of_key_slots max_load_factor
    then ok (floats.scale number_of_key_slots max_load_factor)
    else undefined

-- The constructor for a new cache.
unfoldable pub new_cache : FloatOps → ℕ → ℕ → ℕ → Memory → Result Cache
new_cache floats offset_bits number_of_key_slots max_load_factor handler = do
  max_number_of_entries ← max_entries floats number_of_key_slots max_load_factor
  probe ← new_probe offset_bits number_of_key_slots
  guard (floats.exceeds_linear_max max_load_factor) load_factor_too_large
  memory ← allocate (calculate_key_space_size probe) handler
  ok (record {
    probe = probe;
    memory = memory;
    key_space_block = memory.block;
    max_number_of_entries = max_number_of_entries;
    max_load_factor = max_load_factor;
    number_of_entries = 0;
    max_collisions = 0;
  })

-- The bytes behind `mKeySpacePtr`, if they have not been freed.
unfoldable pub key_space : Cache → Result Ram
key_space c = if c.key_space_block == c.memory.block then ok c.memory.bytes else undefined

-- What is left of `putInternal` when the probe has answered.
unfoldable pub finish_put :
    (ℕ → Memory → Result ℕ × Memory) → Cache → Option ℕ × ℕ → Result (Bool × ℕ) × Cache
finish_put add c (none, collisions) = (ok (false, collisions), c)
finish_put add c (some key_slot_offset, collisions) =
    let (r, memory) = add key_slot_offset c.memory in
    on_ok r (record c { memory = memory })
      λ in_data.
        let total = max collisions in_data in
        (
          ok (true, total),
          record c {
            memory = memory;
            key_space_block = memory.block;
            max_collisions = max total c.max_collisions;
            number_of_entries = u64 (c.number_of_entries + 1);
          },
        )

-- `putInternal`, over the way in which the value is added.
unfoldable pub put_with :
    Hasher → Bytes → (ℕ → Memory → Result ℕ × Memory) → Cache → Result (Bool × ℕ) × Cache
unfolding finish_put key_space
put_with h key add c =
    if leb c.max_number_of_entries c.number_of_entries
    then (throw key_space_is_full, c)
    else on_ok
        (key_space c >>= find_free_key_slot_offset c.probe key (h.hash key) c.memory.data_size) c
        (finish_put add c)

unfoldable pub put_internal :
    Hasher → Bytes → CacheValueType → Bytes → Cache → Result (Bool × ℕ) × Cache
unfolding put_with
put_internal h key type value c =
    put_with h key (λ offset. Value.add c.probe offset key (h.hash key) (type_code type) value) c

-- `setFoundHash`
abbrev pub found_hash : ℕ → Option (ℕ × ℕ) → ℕ
found_hash hash none = 0
found_hash hash (some _) = hash

abbrev pub slot_offset : Option (ℕ × ℕ) → Option ℕ
slot_offset none = none
slot_offset (some (offset, slot)) = some offset

-- The read probe through `mKeySpacePtr`.
unfoldable pub probe_key : Hasher → Bytes → Cache → Result (Ram × Option (ℕ × ℕ))
unfolding key_space
probe_key h key c = do
  m ← key_space c
  found ← find_key_slot_offset c.probe key (h.hash key) c.memory.data_size m
  ok (m, found)

-- `contains`, with the hash that it reports
unfoldable pub contains : Hasher → Bytes → Cache → Result (Bool × ℕ)
unfolding probe_key
contains h key c = do
  (m, found) ← probe_key h key c
  ok (Value.contains (slot_offset found), found_hash (h.hash key) found)

-- `getInternal` of the base class: value, `isExist`, and the hash
unfoldable pub get_internal : Hasher → Bytes → CacheValueType → Cache → Result (Bytes × Bool × ℕ)
unfolding probe_key
get_internal h key type c = do
  (m, found) ← probe_key h key c
  ok (
    Value.get c.probe m (slot_offset found) (type_code type),
    Value.contains (slot_offset found),
    found_hash (h.hash key) found,
  )

-- `getWithTypeInternal` of the base class
unfoldable pub get_with_type_internal :
    Hasher → Bytes → Cache → Result ((Bytes × CacheValueType) × ℕ)
unfolding probe_key
get_with_type_internal h key c = do
  (m, found) ← probe_key h key c
  v ← Value.get_with_type c.probe m (slot_offset found) []
  ok (v, found_hash (h.hash key) found)
