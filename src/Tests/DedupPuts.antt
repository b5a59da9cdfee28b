-- ===== src/Tests/DedupPuts.antt =====
-- Frequent values of a small dedup cache that keys use.
use axon_cache.Prelude.{
  ℕ, zero, suc, get_elem?, Bool, subst, Result, ◌≡◌, refl, [], ◌∷◌, Bytes, none, some, true, ok,
  arith,
}
use axon_cache.Ram.{le}
use axon_cache.Domain.{string}
use axon_cache.Probe
use axon_cache.Value
use axon_cache.Tests.Linear.{seven, fresh, fresh-Refines, fresh-IsWritable, key_a, program}
use axon_cache.Tests.DedupCache.{common, no_values, kept}
use axon_cache.Cache.{contains}
use axon_cache.Dedup.{
  DedupCache, add_value, find_index, set_duplicated_values, put_dedup, get_dedup,
  get_dedup_with_type,
}
use axon_cache.Cache.Outcome.{put_spec}
use axon_cache.Dedup.Lookup.{Answers, Holds, nothing, lookups-Answers}
use axon_cache.Dedup.Put.{Outcome, exists, stored, put_dedup-Outcome}
use axon_cache.Dedup.Index.{IsIndex, empty-IsIndex, cons-IsIndex, set_duplicated_values-Holds}

no_values-Holds : Holds seven (λ _. none) no_values
no_values-Holds = record {
  answers = record { entries = λ _. none; models = fresh-Refines; agrees = λ k. nothing };
  indexed = empty-IsIndex [];
  complete = λ x i at. absurd (cc at);
}

set_duplicated_values-Holds_example :
    (c' : DedupCache) × (set_duplicated_values common no_values ≡ (ok tt, c'))
    × Holds seven (λ _. none) c'
    × (c'.values ≡ common)
    × (c'.cache ≡ fresh)
    × IsIndex common c'.values_to_index
    × ((i : ℕ) (x : Bytes)
        → get_elem? common i ≡ some x
        → (j : ℕ) × (find_index c'.values_to_index x ≡ some j))
set_duplicated_values-Holds_example =
    set_duplicated_values-Holds seven (λ _. none) common no_values (omega arith) (omega arith) refl
      refl refl no_values-Holds

abbrev pub value_c : Bytes
value_c = b'c' ∷ []

abbrev indexed : DedupCache
indexed = record no_values {
  values = common;
  values_memory = some kept;
  values_to_index = (value_c, 1) ∷ (b'a' ∷ b'b' ∷ [], 0) ∷ [];
}

common_found :
    (x : Bytes) (i : ℕ)
    → get_elem? common i ≡ some x
    → (j : ℕ) × (find_index indexed.values_to_index x ≡ some j)
unfolding find_index
common_found x zero at = (0, ground (arith, at))
common_found x (suc zero) at = (1, ground (arith, at))
common_found x (suc (suc i)) at = absurd (cc at)

indexed-Holds : Holds seven (λ _. none) indexed
indexed-Holds = record {
  answers = record { entries = λ _. none; models = fresh-Refines; agrees = λ k. nothing };
  indexed =
      cons-IsIndex common _ value_c 1 (omega arith) refl
        (cons-IsIndex common [] _ 0 (omega arith) refl (empty-IsIndex common));
  complete = common_found;
}

put_dedup-Outcome_example :
    Outcome seven
      (λ _. none)
      key_a
      string
      value_c
      indexed
      (put_dedup seven key_a string value_c indexed)
unfolding find_index Value.index_bytes le Probe.keyspace_size_offset
put_dedup-Outcome_example =
    put_dedup-Outcome seven (λ _. none) indexed indexed-Holds fresh-IsWritable key_a string value_c
      (omega arith) (record { heap = fresh-IsWritable.heap; no_wrap = omega arith }) (omega arith)
      (λ e. omega arith) (omega arith)

abbrev pub one_put : DedupCache
one_put = (put_dedup seven key_a string value_c indexed).1

one_put_run : put_dedup seven key_a string value_c indexed ≡ (ok (true, 0), one_put)
unfolding program put_dedup add_value find_index Value.add_index Value.index_bytes
one_put_run = refl

stored-Holds :
    (r : Result (Bool × ℕ) × DedupCache) (n : ℕ) (c' : DedupCache)
    → Outcome seven (λ _. none) key_a string value_c indexed r
    → r ≡ (ok (true, n), c')
    → Holds seven (put_spec (λ _. none) key_a string value_c) c'
stored-Holds r n c' (exists old collisions at run) e = cc (run, e)
stored-Holds r n c' (stored collisions c1 new run holds _ _ _ _ _ w more) e =
    let same : c1 ≡ c' = cc (run, e) in
    subst (Holds seven (put_spec (λ _. none) key_a string value_c)) same holds

pub one_put-Answers : Answers seven (put_spec (λ _. none) key_a string value_c) one_put
unfolding find_index Value.index_bytes le Probe.keyspace_size_offset
one_put-Answers =
    (stored-Holds _ 0 one_put
      (put_dedup-Outcome seven (λ _. none) indexed indexed-Holds fresh-IsWritable key_a string
        value_c (omega arith) (record { heap = fresh-IsWritable.heap; no_wrap = omega arith })
        (omega arith) (λ e. omega arith) (omega arith))
      one_put_run).answers

lookups-Answers_example :
    (get_dedup seven key_a string one_put ≡ ok (value_c, true, 7))
    × (get_dedup_with_type seven key_a one_put ≡ ok ((value_c, string), 7))
    × (contains seven key_a one_put.cache ≡ ok (true, 7))
lookups-Answers_example =
    lookups-Answers seven (put_spec (λ _. none) key_a string value_c) one_put
      (stored-Holds _ 0 one_put put_dedup-Outcome_example one_put_run).answers key_a string
