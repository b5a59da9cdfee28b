-- ===== src/Cache/New.antt =====
-- A new linear probe cache: what its constructor refuses, and that it starts empty
-- (include/axoncache/cache/base/HashedCacheBase.h).
use axon_cache.Prelude.{
  ℕ, zero, suc, ◌*◌, ◌^◌, ◌≤◌, ◌<◌, ◌≡◌, refl, ◌⊎◌, none, ok, throw, true, false, arith, Returns,
  u64, offset_bits_out_of_range, load_factor_too_large,
}
use axon_cache.Bits.Step.{zero-bit_and}
use axon_cache.Ram.{load}
use axon_cache.Memory.{Memory, malloc_memory, new_malloc, allocate}
use axon_cache.Table.{count}
use axon_cache.Probe.{new_probe, calculate_key_space_size, slot_at}
use axon_cache.Value.Slot.{IsProbe}
use axon_cache.Cache.{Cache, Hasher, FloatOps, new_cache}
use axon_cache.Cache.Models.{IsWritable}
use axon_cache.Cache.Outcome.{Refines}

pub load_zeros : (w a : ℕ) → load w (λ _. 0) a ≡ 0
unfolding load
load_zeros zero a = refl
load_zeros (suc w) a = omega (arith, load_zeros w (suc a))

count-none : (n : ℕ) → count n (λ _. none) ≡ 0
count-none zero = refl
count-none (suc n) = omega (arith, count-none n)

-- A key space of zeros holds no record.
pub empty-Refines :
    (h : Hasher) (c : Cache)
    → IsProbe c.probe
    → c.key_space_block ≡ c.memory.block
    → 8 * c.probe.number_of_key_slots ≤ c.memory.data_size
    → c.memory.bytes ≡ (λ _. 0)
    → c.number_of_entries ≡ 0
    → Refines h (λ _. none) c
empty-Refines h c v fresh above zeros none_yet = record {
  rep = record {
    probe = v;
    above = above;
    table = λ _. none;
    held = λ i lt. rw zeros (unfold slot_at in rw (load_zeros 8) (zero-bit_and _));
    reaches = λ i e lt at. absurd (cc at);
    counted = omega (arith, count-none c.probe.number_of_key_slots);
    room = omega (arith, v.slots);
    sound = λ i e lt at. absurd (cc at);
    complete = λ k e at. absurd (cc at);
  };
  fresh = fresh;
}

-- The empty cache that the constructor builds over a new heap block.
abbrev pub built : FloatOps → ℕ → ℕ → ℕ → ℕ → Cache
built floats bits slots load_factor capacity = record {
  probe = record { offset_bits = bits; number_of_key_slots = slots };
  memory = record {
    kind = malloc_memory;
    block = 1;
    bytes = λ _. 0;
    data_size = u64 (slots * 2 ^ 3);
    real_data_size = u64 (slots * 2 ^ 3);
  };
  key_space_block = 1;
  max_number_of_entries = floats.scale slots load_factor;
  max_load_factor = load_factor;
  number_of_entries = 0;
  max_collisions = 0;
}

module _ (h : Hasher) (floats : FloatOps) (bits slots load_factor capacity : ℕ) where
  new_cache-built :
      16 ≤ bits
      → bits ≤ 38
      → floats.exceeds_linear_max load_factor ≡ false
      → floats.is_converted slots load_factor ≡ true
      → new_cache floats bits slots load_factor (new_malloc capacity)
        ≡ ok (built floats bits slots load_factor capacity)
  unfolding new_cache new_probe allocate new_malloc calculate_key_space_size
  new_cache-built lo hi fine converted = ground (arith, fine, converted)

  module _ (lo : 16 ≤ bits) (hi : bits ≤ 38) (some_slots : 1 ≤ slots)
      (addressable : slots * 8 < 2 ^ 64) where
    pub built-Refines : Refines h (λ _. none) (built floats bits slots load_factor capacity)
    built-Refines =
        empty-Refines h (built floats bits slots load_factor capacity)
          (record {
            enough_bits = lo;
            few_bits = hi;
            slots = some_slots;
            addressable = addressable;
          })
          refl (omega arith) refl refl

    pub built-IsWritable :
        floats.is_non_negative load_factor ≡ true
        → floats.exceeds_linear_max load_factor ≡ false
        → IsWritable (built floats bits slots load_factor capacity)
    built-IsWritable sign fine = record {
      heap = record { heap = refl; fits = omega arith };
      capped = (floats.scale_lt slots load_factor some_slots (omega arith) sign fine).1;
    }

    -- With offset bits from 16 to 38, at least one slot, a key space that can be addressed, and a
    -- load factor from 0 to 0.8, the constructor returns a writable cache that refines the empty map,
    -- with no entries and room for fewer entries than there are slots.
    pub new_cache-Refines :
        floats.is_non_negative load_factor ≡ true
        → floats.exceeds_linear_max load_factor ≡ false
        → Returns (new_cache floats bits slots load_factor (new_malloc capacity)) λ c.
          Refines h (λ _. none) c
          × IsWritable c
          × (c.number_of_entries ≡ 0)
          × (c.max_number_of_entries < slots)
    new_cache-Refines sign fine = (
      built floats bits slots load_factor capacity,
      new_cache-built lo hi fine
          (floats.scale_lt slots load_factor some_slots (omega arith) sign fine).0,
      (
        built-Refines,
        built-IsWritable sign fine,
        refl,
        (floats.scale_lt slots load_factor some_slots (omega arith) sign fine).1,
      ),
    )

  -- If the product with the load factor can be converted, the constructor throws for offset bits
  -- outside 16 to 38, and else for a load factor above 0.8.
  pub new_cache_throws :
      (handler : Memory)
      → floats.is_converted slots load_factor ≡ true
      → ((bits < 16) ⊎ (38 < bits)
          → new_cache floats bits slots load_factor handler ≡ throw offset_bits_out_of_range)
        × (16 ≤ bits
            → bits ≤ 38
            → floats.exceeds_linear_max load_factor ≡ true
            → new_cache floats bits slots load_factor handler ≡ throw load_factor_too_large)
  unfolding new_cache new_probe
  new_cache_throws handler converted =
      (λ outside. ground (arith, converted), λ lo hi above. ground (arith, above, converted))
