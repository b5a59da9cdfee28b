-- ===== src/Chain/Models.antt =====
-- When the bytes of a bucket chain cache hold the records that were put, in their order, each key's
-- records in one chain (include/axoncache/cache/probe/SimpleProbe.h,
-- src/axoncache/cache/value/ChainedValue.cpp).
use axon_cache.Prelude.{
  ℕ, ◌+◌, ◌-◌, ◌*◌, ◌/◌, ◌%◌, ◌^◌, ◌≤◌, ◌<◌, ◌≡◌, sym, subst, List, Bytes, length, bit_and, arith,
}
use native.Mathlib.Nat.{one-le-pow, div-add-mod}
use axon_cache.Bits.{bit_and_low}
use axon_cache.Ram.{load}
use axon_cache.Cache.{Hasher}
use axon_cache.Chain.{ChainCache, find_slot_offset}
use axon_cache.Chain.Layout.{Chained, total_size, next_in, Linked}

abbrev pub bucket_of : Hasher → ChainCache → Bytes → ℕ
bucket_of h c key = bit_and (h.hash key) (c.number_of_key_slots - 1)

-- Where the records begin.
abbrev pub base : ChainCache → ℕ
base c = 8 * c.number_of_key_slots

-- The cache holds the records of `log`, the first one first.
pub record Chains (h : Hasher) (log : List Chained) (c : ChainCache) : Type 0 where
  pub bits : ℕ
  pub slots : c.number_of_key_slots ≡ 2 ^ bits
  pub addressable : 8 * c.number_of_key_slots < 2 ^ 64
  pub linked : Linked (bucket_of h c) c.memory.bytes (base c) log
  pub starts :
      (s : ℕ)
      → s < c.number_of_key_slots
      → load 8 c.memory.bytes (8 * s) ≡ next_in (bucket_of h c) s (base c) log
  pub end : c.memory.data_size ≡ base c + total_size log
  pub fresh : c.key_space_block ≡ c.memory.block
  pub counted : c.number_of_entries ≡ length log

masked-lt : (k x : ℕ) → bit_and x (2 ^ k - 1) < 2 ^ k
masked-lt k x =
    let some = one-le-pow k 2 (omega arith) in
    let whole : x / 2 ^ k * 2 ^ k + x % 2 ^ k ≡ x = grind (arith, div-add-mod x (2 ^ k)) in
    let below : x % 2 ^ k < 2 ^ k = grind arith in
    subst (λ (y : ℕ). bit_and y (2 ^ k - 1) < 2 ^ k) whole
      (rw (bit_and_low k (x / 2 ^ k) (x % 2 ^ k) below) below)

module _ (h : Hasher) (log : List Chained) (c : ChainCache) (v : Chains h log c) where
  pub some_slots : 1 ≤ c.number_of_key_slots
  some_slots = subst (λ (n : ℕ). 1 ≤ n) (sym v.slots) (one-le-pow v.bits 2 (omega arith))

  -- The mask keeps a hash code below the number of slots.
  pub bucket_of-lt : (key : Bytes) → bucket_of h c key < c.number_of_key_slots
  bucket_of-lt key =
      subst (λ (n : ℕ). bit_and (h.hash key) (n - 1) < n) (sym v.slots)
        (masked-lt v.bits (h.hash key))

  pub find_slot_offset-bucket_of :
      (key : Bytes) → find_slot_offset c.number_of_key_slots (h.hash key) ≡ 8 * bucket_of h c key
  unfolding find_slot_offset
  find_slot_offset-bucket_of key = omega (arith, bucket_of-lt key, v.addressable)

  pub start_link :
      (key : Bytes)
      → load 8 c.memory.bytes (8 * bucket_of h c key)
        ≡ next_in (bucket_of h c) (bucket_of h c key) (base c) log
  start_link key = v.starts (bucket_of h c key) (bucket_of-lt key)
