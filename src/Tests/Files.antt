-- ===== src/Tests/Files.antt =====
-- Cache files of small caches.
use axon_cache.Prelude.{
  ℕ, ◌^◌, ◌<◌, ◌≡◌, refl, inr, [], ◌∷◌, Bytes, length, none, some, throw, Returns, arith,
  key_space_is_full,
}
use axon_cache.Ram.{view, le}
use axon_cache.Domain.{CacheValueType, string, int64, linear_probe}
use axon_cache.Header.{header_memory, new_header, write, print_name, c_string, behind_first}
use axon_cache.Header.RoundTrip.{IsInfo}
use axon_cache.Probe.{hashcode_bits}
use axon_cache.Cache.{put_internal}
use axon_cache.Cache.Outcome.{Refines, put_spec}
use axon_cache.Cache.Run.{log_spec}
use axon_cache.Value
use axon_cache.Dedup.{put_dedup, add_value, find_index}
use axon_cache.Dedup.File.{output, frequent_values_output, lengths_bytes}
use axon_cache.Dedup.Lookup.{Answers}
use axon_cache.Tests.Linear.{seven, two_puts, two_puts-Refines, key_a, key_b, text, program}
use axon_cache.Tests.DedupCache.{kept, kept-Stand}
use axon_cache.Tests.DedupPuts.{one_put, one_put-Answers, value_c}
use axon_cache.Loader.{cache_info, write_linear, load_linear, write_dedup, load_dedup}
use axon_cache.Loader.Linear.{load_linear-write_linear}
use axon_cache.Loader.Dedup.{IsNew, load_dedup-write_dedup}
use axon_cache.Loader.Names.{
  timestamp_of, timestamp_full_cache_file_name, timestamp_of-timestamp_full_cache_file_name,
}

abbrev pub file_name : Bytes
file_name = b'a' ∷ b'.' ∷ b'7' ∷ b'.' ∷ b'c' ∷ b'a' ∷ b'c' ∷ b'h' ∷ b'e' ∷ []

abbrev pub zeros : ℕ → Bytes
zeros n = view (λ _. 0) 0 n

two_puts-IsInfo : IsInfo (cache_info 2000 linear_probe two_puts) 1700000000000
unfolding cache_info hashcode_bits program
two_puts-IsInfo = record {
  version = omega arith;
  type = omega arith;
  hashcode_bits = omega arith;
  offset_bits = omega arith;
  hash_func_id = omega arith;
  max_collisions = omega arith;
  max_load_factor = omega arith;
  creation_time = omega arith;
  number_of_key_slots = omega arith;
  number_of_entries = omega arith;
  data_size = omega arith;
  size = omega arith;
}

pub length-zeros : length (zeros 32) ≡ 32
unfolding view
length-zeros = refl

abbrev linear_file : Bytes
linear_file = write_linear 2000 key_a 1700000000000 (zeros 32) two_puts

load_linear-write_linear_example :
    Returns (load_linear 2000 file_name (some linear_file) (some linear_file)) λ (c', timestamp).
      Refines seven (log_spec ((key_b, int64, 1 ∷ 2 ∷ []) ∷ (key_a, string, text) ∷ [])) c'
      × (c'.number_of_entries ≡ two_puts.number_of_entries)
      × ((key : Bytes) (type : CacheValueType) (value : Bytes)
          → put_internal seven key type value c' ≡ (throw key_space_is_full, c'))
load_linear-write_linear_example =
    load_linear-write_linear seven _ two_puts 2000 key_a 1700000000000 (zeros 32) file_name
      two_puts-Refines two_puts-IsInfo length-zeros

abbrev dedup_file : Bytes
dedup_file = (write_dedup 2000 key_a 1700000000000 (zeros 32) one_put).0

one_put-IsInfo : IsInfo (cache_info 2000 one_put.cache_type one_put.cache) 1700000000000
unfolding cache_info hashcode_bits program put_dedup add_value find_index Value.add_index
    Value.index_bytes
one_put-IsInfo = record {
  version = omega arith;
  type = omega arith;
  hashcode_bits = omega arith;
  offset_bits = omega arith;
  hash_func_id = omega arith;
  max_collisions = omega arith;
  max_load_factor = omega arith;
  creation_time = omega arith;
  number_of_key_slots = omega arith;
  number_of_entries = omega arith;
  data_size = omega arith;
  size = omega arith;
}

one_put-IsNew : IsNew one_put
unfolding program put_dedup add_value find_index Value.add_index Value.index_bytes
one_put-IsNew = record {
  dedup = refl;
  unloaded = refl;
  memory = inr (
    kept,
    refl,
    record {
      some_values = omega arith;
      few = omega arith;
      small = omega arith;
      fit = (omega arith, (omega arith, tt));
      stand = kept-Stand;
      size = refl;
    },
  );
}

short_file : length dedup_file < 2 ^ 64
unfolding write_dedup output frequent_values_output lengths_bytes write header_memory new_header
    print_name c_string behind_first le view program put_dedup add_value find_index Value.add_index
    Value.index_bytes
short_file = omega arith

load_dedup-write_dedup_example :
    Returns (write_dedup 2000 key_a 1700000000000 (zeros 32) one_put).1 (λ _. Unit {0})
    × Returns
        (load_dedup 2000 file_name (some dedup_file) (some dedup_file))
        λ (c', _). Answers seven (put_spec (λ _. none) key_a string value_c) c'
load_dedup-write_dedup_example =
    load_dedup-write_dedup seven _ one_put 2000 key_a 1700000000000 (zeros 32) one_put-Answers
      one_put-IsNew one_put-IsInfo length-zeros file_name short_file

timestamp_of-timestamp_full_cache_file_name_example :
    timestamp_of (timestamp_full_cache_file_name key_a key_b (b'4' ∷ b'2' ∷ [])) ≡ b'4' ∷ b'2' ∷ []
timestamp_of-timestamp_full_cache_file_name_example =
    timestamp_of-timestamp_full_cache_file_name key_a key_b (b'4' ∷ b'2' ∷ []) refl
      (unfold timestamp_full_cache_file_name in omega arith)
