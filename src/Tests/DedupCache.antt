-- ===== src/Tests/DedupCache.antt =====
-- Frequent values of a small dedup cache.
use axon_cache.Prelude.{◌+◌, ◌^◌, ◌<◌, refl, false, List, [], ◌∷◌, Bytes, none, length, arith}
use axon_cache.Ram.{copy, view, le}
use axon_cache.Ram.Laws.{view-copy}
use axon_cache.Ram.Encoding.{At, view-At}
use axon_cache.Domain.{linear_probe_dedup}
use axon_cache.Memory.{Memory, malloc_memory, mmap_memory}
use axon_cache.Tests.Linear.{fresh}
use axon_cache.Dedup.{DedupCache}
use axon_cache.Dedup.Values.{Stand}
use axon_cache.Dedup.File.{frequent_values_output}

abbrev pub common : List Bytes
common = (b'a' ∷ b'b' ∷ []) ∷ (b'c' ∷ []) ∷ []

abbrev pub no_values : DedupCache
no_values = record {
  cache = fresh;
  values = [];
  values_to_index = [];
  values_memory = none;
  is_values_loaded = false;
  cache_type = linear_probe_dedup;
}

abbrev pub kept : Memory
kept = record {
  kind = malloc_memory;
  block = 0;
  bytes = copy (λ _. 0) 0 (b'a' ∷ b'b' ∷ b'c' ∷ []);
  data_size = 3;
  real_data_size = 1024;
}

pub kept-Stand : Stand kept.bytes 0 common
unfolding copy view
kept-Stand = (refl, (refl, tt))

abbrev table : Bytes
table = (frequent_values_output common kept).0

-- A file of 100 bytes of data and the table.
abbrev file : DedupCache
file = record no_values {
  cache = record fresh {
    memory = record {
      kind = mmap_memory;
      block = 0;
      bytes = copy (λ _. 0) 100 table;
      data_size = 100 + length table;
      real_data_size = 0;
    };
  };
}

small_file : 100 + length table < 2 ^ 64
unfolding frequent_values_output le view copy
small_file = omega arith

file-At : At file.cache.memory.bytes 100 table
file-At = view-At file.cache.memory.bytes 100 table (view-copy (λ _. 0) 100 table)
