-- ===== src/Writer/Codes.antt =====
-- The error codes of `insertKey` (src/axoncache/capi/CacheWriterCApi.cpp) over a linear probe cache.
use axon_cache.Prelude.{
  ℕ, ◌^◌, ◌≤◌, ◌<◌, ◌≡◌, ◌⊎◌, Bool, none, some, ◌∷◌, Bytes, length, Result, ok, Error,
  key_space_is_full, offset_bits_too_short,
}
use axon_cache.Convert.{null_terminated}
use axon_cache.Domain.{CacheValueType, string, key_length_limit, value_length_limit}
use axon_cache.Value.Slot.{offset_of}
use axon_cache.Cache.{Cache, Hasher}
use axon_cache.Cache.Models.{IsWritable}
use axon_cache.Cache.Outcome.{Spec, Refines, put_spec}
use axon_cache.Typed.Linear.{put_value}
use axon_cache.Writer.{Parsers, Writer, count_collisions, finish_insert}

abbrev pub cache_bits : Cache → ℕ
cache_bits c = c.probe.offset_bits

-- How an `insertKey` of a text ends, and its code.
pub data Inserted (h : Hasher) (s : Spec) (key value : Bytes) (w : Writer Cache)
    (r : Result ℕ × Writer Cache) : Type 0 where
  full_code :
      w.cache.max_number_of_entries ≤ w.cache.number_of_entries
      → r ≡ (ok 3, record w { last_error = some key_space_is_full })
      → Inserted h s key value w r
  exists_code :
      (old : CacheValueType × Bytes) (collisions : ℕ)
      → s key ≡ some old
      → r
        ≡ (ok 0, record w { collisions_counter = count_collisions collisions w.collisions_counter })
      → Inserted h s key value w r
  size_code :
      (error : Error)
      → s key ≡ none
      → (key_length_limit < length key) ⊎ (value_length_limit < length (null_terminated value))
      → r ≡ (ok 1, record w { last_error = some error })
      → Inserted h s key value w r
  offset_code :
      (c' : Cache)
      → s key ≡ none
      → 2 ^ w.cache.probe.offset_bits ≤ offset_of w.cache.probe w.cache.memory.data_size
      → r ≡ (ok 2, record w { cache = c'; last_error = some offset_bits_too_short })
      → Inserted h s key value w r
  stored_code :
      (collisions : ℕ) (c' : Cache)
      → s key ≡ none
      → r ≡ (
        ok 0,
        record w {
          cache = c';
          collisions_counter = count_collisions collisions w.collisions_counter;
        },
      )
      → Refines h (put_spec s key string (null_terminated value)) c'
      → IsWritable c'
      → Inserted h s key value w r

module _ (h : Hasher) (parsers : Parsers) (w : Writer Cache) (c : ℕ) (rest value : Bytes) where
  abbrev key : Bytes
  key = c ∷ rest

  abbrev finish : Result (Bool × ℕ) × Cache → Result ℕ × Writer Cache
  finish = finish_insert (put_value h) cache_bits w
