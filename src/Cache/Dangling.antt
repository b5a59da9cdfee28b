-- ===== src/Cache/Dangling.antt =====
-- What a `putInternal` that throws for its offset leaves: `mKeySpacePtr` is not updated on that
-- path (src/axoncache/cache/base/HashedCacheBase.cpp).
use axon_cache.Prelude.{
  ℕ, ◌+◌, ◌^◌, ◌≤◌, ◌<◌, ◌≡◌, refl, none, Bytes, Bool, throw, undefined, Result, length, arith,
  offset_bits_too_short,
}
use axon_cache.Domain.{CacheValueType, type_code, key_length_limit, value_length_limit}
use axon_cache.Memory.{Memory}
use axon_cache.Value.Slot.{offset_of}
use axon_cache.Value.Add.{value_entry, entry_size, CanGrow}
use axon_cache.Cache.{Cache, Hasher, put_internal, get_internal, get_with_type_internal, contains}
use axon_cache.Cache.Models.{IsWritable}
use axon_cache.Cache.Outcome.{
  Spec, Refines, Outcome, put_internal-Outcome, full, exists, long_key, long_value, far_offset,
  stored,
}

-- The put threw for its offset, the key space pointer points into the block before the one that the
-- memory has now, and every later lookup reads through it.
abbrev pub Dangles : Hasher → Cache → Result (Bool × ℕ) × Cache → Type 0
Dangles h c r =
    (r.0 ≡ throw offset_bits_too_short)
    × (r.1.key_space_block ≡ c.memory.block)
    × (r.1.memory.block ≡ c.memory.block + 1)
    × ((k : Bytes) (t : CacheValueType) → get_internal h k t r.1 ≡ undefined)
    × ((k : Bytes) → get_with_type_internal h k r.1 ≡ undefined)
    × ((k : Bytes) → contains h k r.1 ≡ undefined)

stale-Dangles :
    (h : Hasher) (c : Cache) (m : Memory)
    → c.key_space_block ≡ c.memory.block
    → m.block ≡ c.memory.block + 1
    → Dangles h c (throw offset_bits_too_short, record c { memory = m })
unfolding get_internal get_with_type_internal contains
stale-Dangles h c m fresh moved = (
  refl,
  fresh,
  moved,
  λ k t. ground (arith, fresh, moved),
  λ k. ground (arith, fresh, moved),
  λ k. ground (arith, fresh, moved),
)

module _ (h : Hasher) (s : Spec) (c : Cache) (v : Refines h s c) (w : IsWritable c) (key : Bytes)
    (type : CacheValueType) (value : Bytes)
    (g : CanGrow c.memory (value_entry key (type_code type) value)) (new : s key ≡ none)
    (spare : c.number_of_entries < c.max_number_of_entries)
    (short_key : length key ≤ key_length_limit) (short_value : length value ≤ value_length_limit)
    (far : 2 ^ c.probe.offset_bits ≤ offset_of c.probe c.memory.data_size)
    (no_room : c.memory.real_data_size
      ≤ c.memory.data_size + entry_size (value_entry key (type_code type) value)) where
  dangles : (r : Result (Bool × ℕ) × Cache) → Outcome h s key type value c r → Dangles h c r
  dangles r (full at e) = absurd (omega arith)
  dangles r (exists old n _ at e) = absurd (cc (at, new))
  dangles r (long_key _ _ long e) = absurd (omega arith)
  dangles r (long_value _ _ _ long e) = absurd (omega arith)
  dangles r (far_offset m _ _ _ _ a e) = rw e (stale-Dangles h c m v.fresh (a.moved no_room))
  dangles r (stored n c' _ _ _ near e v' w' more coll grew) = absurd (omega arith)

  -- When the offset of a new record does not fit the offset bits and the block had no room left for
  -- the record, `putInternal` throws with `mKeySpacePtr` still in the block that `realloc` gave up for
  -- the next one: every later `getInternal`, `getWithTypeInternal` and `contains`, of any key, reads
  -- freed memory, which is undefined behaviour.
  pub put_internal-Dangles : Dangles h c (put_internal h key type value c)
  put_internal-Dangles = dangles _ (put_internal-Outcome h s c v w key type value g)
