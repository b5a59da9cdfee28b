-- ===== src/Chain/New.antt =====
-- A new bucket chain cache, and runs of puts
-- (include/axoncache/cache/base/HashedCacheBase.h, include/axoncache/cache/probe/SimpleProbe.h).
use axon_cache.Prelude.{ℕ, ◌*◌, ◌^◌, ◌≤◌, ◌<◌, ◌≡◌, true, refl, [], Returns, u64, arith}
use axon_cache.Memory.{malloc_memory, new_malloc, allocate}
use axon_cache.Memory.Laws.{IsHeap}
use axon_cache.Math.{round_up_to_power_of_two-bounds}
use axon_cache.Cache.{Hasher, FloatOps}
use axon_cache.Cache.New.{load_zeros}
use axon_cache.Chain.{ChainCache, new_chain_cache}
use axon_cache.Chain.Models.{Chains}

-- The empty cache over a new heap block.
abbrev pub built : FloatOps → ℕ → ℕ → ℕ → ChainCache
built floats slots number_of_key_slots max_load_factor = record {
  number_of_key_slots = slots;
  memory = record {
    kind = malloc_memory;
    block = 1;
    bytes = λ _. 0;
    data_size = u64 (slots * 2 ^ 3);
    real_data_size = u64 (slots * 2 ^ 3);
  };
  key_space_block = 1;
  max_number_of_entries = floats.scale number_of_key_slots max_load_factor;
  max_load_factor = max_load_factor;
  number_of_entries = 0;
  max_collisions = 0;
}

-- With 1 to 2^60 slots asked for and a load factor whose product with them converts to a `uint64_t`, the
-- constructor of a bucket chain cache ends normally, in a cache without records that has at least as
-- many slots and fewer than twice as many, and the converted product as its limit on entries.
pub new_chain_cache-Chains :
    (h : Hasher) (floats : FloatOps) (number_of_key_slots max_load_factor capacity : ℕ)
    → 1 ≤ number_of_key_slots
    → number_of_key_slots ≤ 2 ^ 60
    → floats.is_converted number_of_key_slots max_load_factor ≡ true
    → Returns
        (new_chain_cache floats number_of_key_slots max_load_factor (new_malloc capacity))
        (λ c.
          Chains h [] c
          × IsHeap c.memory
          × (number_of_key_slots ≤ c.number_of_key_slots)
          × (c.number_of_key_slots < 2 * number_of_key_slots)
          × (c.max_number_of_entries ≡ floats.scale number_of_key_slots max_load_factor))
unfolding new_chain_cache allocate new_malloc
new_chain_cache-Chains h floats number_of_key_slots max_load_factor capacity pos fits converted =
    let (slots, run, ((k, _, power), lo, hi)) =
      (round_up_to_power_of_two-bounds number_of_key_slots pos (omega arith)).0 (omega arith) in
    (
      built floats slots number_of_key_slots max_load_factor,
      rw (converted, run) (ground arith),
      (
        record {
          bits = k;
          slots = power;
          addressable = omega arith;
          linked = tt;
          starts = λ s lt. load_zeros 8 (8 * s);
          end = omega arith;
          fresh = refl;
          counted = refl;
        },
        record { heap = refl; fits = omega arith },
        lo,
        hi,
        refl,
      ),
    )
