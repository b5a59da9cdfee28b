-- ===== src/Tests/Linear.antt =====
-- A small linear probe cache whose keys all collide, and the theorems at it.
use axon_cache.Prelude.{
  ℕ, zero, suc, ◌*◌, ◌/◌, ◌^◌, ◌≤◌, ◌<◌, ◌≡◌, refl, none, Bytes, ok, true, false, arith, ltb, [],
  ◌∷◌, Returns, diverges,
}
use axon_cache.Domain.{string, int64, value_type}
use axon_cache.Memory.{new_malloc, grow}
use axon_cache.Memory.Laws.{Grown, grow-Grown}
use axon_cache.Ram.{load, store, copy, view, memcmp_eq}
use axon_cache.Probe
use axon_cache.Probe.Ends.{stop_at, IsWithin, find_key_slot_offset-stop_at}
use axon_cache.Value
use axon_cache.Value.Add.{value_entry, CanGrow}
use axon_cache.Cache.{
  Cache, Hasher, FloatOps, new_cache, put_internal, get_internal, get_with_type_internal, contains,
}
use axon_cache.Cache.Models.{IsWritable}
use axon_cache.Cache.Outcome.{Refines, Outcome, put_internal-Outcome}
use axon_cache.Cache.Lookup.{
  contains-spec_contains, get_internal-spec_get, get_with_type_internal-spec_get_with_type,
}
use axon_cache.Cache.New.{empty-Refines, built, built-Refines, built-IsWritable, new_cache-Refines}
use axon_cache.Cache.Run.{Puts, start, put, log_spec, Puts-Refines, get_with_type_internal-Puts}
use axon_cache.Cache.Dangling.{Dangles, put_internal-Dangles}

abbrev pub seven : Hasher
seven = record { hash = λ k. 7; hash_lt = λ k. omega arith }

pub thousandths_lt : (n d : ℕ) → 1 ≤ n → ltb 800 d ≡ false → n * d / 1000 < n
thousandths_lt n d h e = grind arith

-- Load factors in thousandths.
abbrev pub thousandths : FloatOps
thousandths = record {
  exceeds_linear_max = λ d. ltb 800 d;
  is_non_negative = λ d. true;
  is_converted = λ n d. ltb (n * d / 1000) (2 ^ 64);
  scale = λ n d. n * d / 1000;
  scale_lt =
      λ n d h small _ e. let less = thousandths_lt n d h e in (ground (arith, less, small), less);
}

abbrev pub fresh : Cache
fresh = built thousandths 16 4 500 64

pub fresh-Refines : Refines seven (λ _. none) fresh
fresh-Refines =
    built-Refines seven thousandths 16 4 500 64 (omega arith) (omega arith) (omega arith)
      (omega arith)

pub fresh-IsWritable : IsWritable fresh
fresh-IsWritable =
    built-IsWritable seven thousandths 16 4 500 64 (omega arith) (omega arith) (omega arith)
      (omega arith) refl refl

abbrev pub key_a : Bytes
key_a = b'a' ∷ []

abbrev pub key_b : Bytes
key_b = b'b' ∷ []

abbrev pub text : Bytes
text = b'x' ∷ b'y' ∷ 0 ∷ []

new_cache-Refines_example : Returns (new_cache thousandths 16 4 500 (new_malloc 64)) λ c.
    Refines seven (λ _. none) c
    × IsWritable c
    × (c.number_of_entries ≡ 0)
    × (c.max_number_of_entries < 4)
new_cache-Refines_example =
    new_cache-Refines seven thousandths 16 4 500 64 (omega arith) (omega arith) (omega arith)
      (omega arith) refl refl

pub fresh-CanGrow : CanGrow fresh.memory (value_entry key_a 0 text)
fresh-CanGrow = record { heap = fresh-IsWritable.heap; no_wrap = omega arith }

put_internal-Outcome_example :
    Outcome seven (λ _. none) key_a string text fresh (put_internal seven key_a string text fresh)
put_internal-Outcome_example =
    put_internal-Outcome seven (λ _. none) fresh fresh-Refines fresh-IsWritable key_a string text
      fresh-CanGrow

unfoldable pub program : Unit {0}
unfolding value_type load store copy view memcmp_eq grow Probe.find_key_slot_offset
    Probe.find_free_key_slot_offset Probe.slot_matches Probe.next_slot Probe.slot_at
    Probe.key_slot_to_ptr_offset Value.add Value.get Value.get_with_type Value.contains put_internal
    get_internal get_with_type_internal contains
program = tt

abbrev pub one_put : Cache
one_put = (put_internal seven key_a string text fresh).1

pub one_put_run : put_internal seven key_a string text fresh ≡ (ok (true, 0), one_put)
unfolding program
one_put_run = refl

abbrev pub two_puts : Cache
two_puts = (put_internal seven key_b int64 (1 ∷ 2 ∷ []) one_put).1

two_puts_run : put_internal seven key_b int64 (1 ∷ 2 ∷ []) one_put ≡ (ok (true, 1), two_puts)
unfolding program
two_puts_run = refl

get_b_run : get_with_type_internal seven key_b two_puts ≡ ok ((1 ∷ 2 ∷ [], int64), 7)
unfolding program
get_b_run = refl

both-Puts : Puts seven fresh ((key_b, int64, 1 ∷ 2 ∷ []) ∷ (key_a, string, text) ∷ []) two_puts
unfolding program
both-Puts =
    put key_b int64 (1 ∷ 2 ∷ []) (put key_a string text start fresh-CanGrow one_put_run)
      (record { heap = record { heap = refl; fits = omega arith }; no_wrap = omega arith })
      two_puts_run

pub two_puts-Refines :
    Refines seven (log_spec ((key_b, int64, 1 ∷ 2 ∷ []) ∷ (key_a, string, text) ∷ [])) two_puts
two_puts-Refines = (Puts-Refines seven fresh fresh-Refines fresh-IsWritable both-Puts).0

Puts-Refines_example :
    Refines seven (log_spec ((key_b, int64, 1 ∷ 2 ∷ []) ∷ (key_a, string, text) ∷ [])) two_puts
    × IsWritable two_puts
Puts-Refines_example = Puts-Refines seven fresh fresh-Refines fresh-IsWritable both-Puts

get_with_type_internal-Puts_example :
    get_with_type_internal seven key_a two_puts ≡ ok ((text, string), 7)
get_with_type_internal-Puts_example =
    get_with_type_internal-Puts seven fresh fresh-Refines fresh-IsWritable key_a both-Puts

contains-spec_contains_example : contains seven key_b two_puts ≡ ok (true, 7)
contains-spec_contains_example =
    contains-spec_contains seven _ two_puts Puts-Refines_example.0 key_b

-- The type does not match: the key is there, and the value reads as the empty string.
get_internal-spec_get_example : get_internal seven key_b string two_puts ≡ ok ([], true, 7)
get_internal-spec_get_example =
    get_internal-spec_get seven _ two_puts Puts-Refines_example.0 key_b string

get_with_type_internal-spec_get_with_type_example :
    get_with_type_internal seven key_b two_puts ≡ ok ((1 ∷ 2 ∷ [], int64), 7)
get_with_type_internal-spec_get_with_type_example =
    get_with_type_internal-spec_get_with_type seven _ two_puts Puts-Refines_example.0 key_b

-- A cache of 16 offset bits whose data has grown past what they can address.
abbrev wide : Cache
wide = record fresh { memory = record fresh.memory { data_size = 70000; real_data_size = 70000 } }

wide-Refines : Refines seven (λ _. none) wide
wide-Refines =
    empty-Refines seven wide
      (record {
        enough_bits = omega arith;
        few_bits = omega arith;
        slots = omega arith;
        addressable = omega arith;
      })
      refl (omega arith) refl refl

wide-IsWritable : IsWritable wide
wide-IsWritable = record { heap = record { heap = refl; fits = omega arith }; capped = omega arith }

put_internal-Dangles_example : Dangles seven wide (put_internal seven key_a string text wide)
unfolding Probe.keyspace_size_offset
put_internal-Dangles_example =
    put_internal-Dangles seven (λ _. none) wide wide-Refines wide-IsWritable key_a string text
      (record { heap = wide-IsWritable.heap; no_wrap = omega arith }) refl (omega arith)
      (omega arith) (omega arith) (omega arith) (omega arith)

grow-Grown_example : Returns (grow 10 fresh.memory) (Grown fresh.memory 10)
grow-Grown_example = grow-Grown fresh.memory 10 fresh-IsWritable.heap (omega arith)

-- The slot of the record holds another key, and the others are free.
one_put-IsWithin : IsWithin one_put.probe key_b 7 one_put.memory.data_size one_put.memory.bytes
unfolding program
one_put-IsWithin zero h = (true, refl, tt)
one_put-IsWithin (suc zero) h = (true, refl, tt)
one_put-IsWithin (suc (suc zero)) h = (true, refl, tt)
one_put-IsWithin (suc (suc (suc zero))) h = (false, refl, tt)
one_put-IsWithin (suc (suc (suc (suc z)))) h = absurd (omega arith)

find_key_slot_offset-stop_at_example :
    ((z : ℕ)
      → z < 4
      → stop_at one_put.probe key_b 7 one_put.memory.data_size one_put.memory.bytes z ≡ ok true
      → Returns
          (Probe.find_key_slot_offset one_put.probe key_b 7 one_put.memory.data_size
            one_put.memory.bytes)
          (λ _. Unit {0})
        × Returns
            (Probe.find_free_key_slot_offset one_put.probe key_b 7 one_put.memory.data_size
              one_put.memory.bytes)
            (λ _. Unit {0}))
    × (((z : ℕ)
          → z < 4
          → stop_at one_put.probe key_b 7 one_put.memory.data_size one_put.memory.bytes z
            ≡ ok false)
        → (Probe.find_key_slot_offset one_put.probe key_b 7 one_put.memory.data_size
              one_put.memory.bytes
            ≡ diverges)
          × (Probe.find_free_key_slot_offset one_put.probe key_b 7 one_put.memory.data_size
                one_put.memory.bytes
              ≡ diverges))
unfolding program
find_key_slot_offset-stop_at_example =
    find_key_slot_offset-stop_at one_put.probe key_b 7 one_put.memory.data_size one_put.memory.bytes
      (omega arith) one_put-IsWithin
