-- ===== src/Tests/Chains.antt =====
-- A small bucket chain cache whose keys all share a bucket.
use axon_cache.Prelude.{
  ℕ, ◌*◌, ◌+◌, ◌/◌, ◌≤◌, ◌<◌, ◌≡◌, ◌^◌, refl, [], ◌∷◌, ok, undefined, Returns, true, arith,
}
use axon_cache.Domain.{string, int64}
use axon_cache.Memory.{new_malloc, grow}
use axon_cache.Memory.Laws.{IsHeap}
use axon_cache.Ram.{load, store, copy}
use axon_cache.Math.{
  bit_length, shifted_one, round_up_to_power_of_two, round_up_to_power_of_two-bounds,
}
use axon_cache.Tests.Linear.{seven, thousandths, key_a, text}
use axon_cache.Chain.{ChainCache, new_chain_cache, put_chain, get_chain, contains_chain}
use axon_cache.Chain.Models.{Chains}
use axon_cache.Chain.Put.{chained, Outcome, put_chain-Outcome}
use axon_cache.Chain.Lookup.{get_chain-chain_answer}
use axon_cache.Chain.New.{built, new_chain_cache-Chains}
use axon_cache.Chain.Run.{stored-Chains, get_chain-put_chain}

round_up_to_power_of_two-bounds_example :
    (5 ≤ 2 ^ 63
      → Returns
          (round_up_to_power_of_two 5)
          λ r. ((k : ℕ) × (k ≤ 63) × (r ≡ 2 ^ k)) × (5 ≤ r) × (r < 2 * 5))
    × (2 ^ 63 < 5 → round_up_to_power_of_two 5 ≡ undefined)
round_up_to_power_of_two-bounds_example =
    round_up_to_power_of_two-bounds 5 (omega arith) (omega arith)

rounded : round_up_to_power_of_two 5 ≡ ok 8
unfolding round_up_to_power_of_two shifted_one bit_length
rounded = refl

abbrev empty : ChainCache
empty = built thousandths 4 3 2000

new_chain_cache-Chains_example : Returns (new_chain_cache thousandths 3 2000 (new_malloc 64)) λ c.
    Chains seven [] c
    × IsHeap c.memory
    × (3 ≤ c.number_of_key_slots)
    × (c.number_of_key_slots < 6)
    × (c.max_number_of_entries ≡ 6)
new_chain_cache-Chains_example =
    new_chain_cache-Chains seven thousandths 3 2000 64 (omega arith) (omega arith) refl

empty-Chains : Chains seven [] empty
unfolding load
empty-Chains = record {
  bits = 2;
  slots = refl;
  addressable = omega arith;
  linked = tt;
  starts = λ s lt. refl;
  end = refl;
  fresh = refl;
  counted = refl;
}

empty-IsHeap : IsHeap empty.memory
empty-IsHeap = record { heap = refl; fits = omega arith }

put_chain-Outcome_example :
    Outcome seven [] key_a string text empty (put_chain seven key_a string text empty)
put_chain-Outcome_example =
    put_chain-Outcome seven [] empty empty-Chains empty-IsHeap key_a string text (omega arith)
      (omega arith)

abbrev one_put : ChainCache
one_put = (put_chain seven key_a string text empty).1

one_put_run : put_chain seven key_a string text empty ≡ (ok (true, 0), one_put)
unfolding put_chain load store copy grow
one_put_run = refl

one_put-Chains : Chains seven (chained key_a string text ∷ []) one_put
one_put-Chains =
    stored-Chains seven [] key_a string text empty one_put _ 0
      (put_chain-Outcome seven [] empty empty-Chains empty-IsHeap key_a string text (omega arith)
        (omega arith))
      one_put_run

one_put-IsHeap : IsHeap one_put.memory
unfolding put_chain load store copy grow
one_put-IsHeap = record { heap = refl; fits = omega arith }

get_chain-chain_answer_example :
    (get_chain seven key_a string one_put ≡ ok (text, true, 7))
    × (contains_chain seven key_a one_put ≡ ok (true, 7))
get_chain-chain_answer_example =
    get_chain-chain_answer seven (chained key_a string text ∷ []) one_put one_put-Chains key_a
      string

-- The key is put again: the cache returns true, and the key keeps its first value.
abbrev same_key : ChainCache
same_key = (put_chain seven key_a int64 (1 ∷ []) one_put).1

same_key_run : put_chain seven key_a int64 (1 ∷ []) one_put ≡ (ok (true, 1), same_key)
unfolding put_chain load store copy grow
same_key_run = refl

one_put-room : one_put.memory.data_size + 16 + one_put.memory.real_data_size / 2 < 2 ^ 64
unfolding put_chain load store copy grow
one_put-room = omega arith

get_chain-put_chain_example : get_chain seven key_a string same_key ≡ ok (text, true, 7)
get_chain-put_chain_example =
    get_chain-put_chain seven (chained key_a string text ∷ []) one_put same_key key_a int64 (1 ∷ [])
      1 one_put-Chains one_put-IsHeap (omega arith) one_put-room same_key_run key_a string
