-- ===== src/Chain/Put.antt =====
-- Every branch of `putInternal` of a bucket chain cache
-- (src/axoncache/cache/base/HashedCacheBase.cpp over src/axoncache/cache/value/ChainedValue.cpp).
use axon_cache.Prelude.{
  ℕ, ◌+◌, ◌*◌, ◌/◌, ◌^◌, ◌≤◌, ◌<◌, ◌≡◌, refl, sym, ◌⊎◌, inl, inr, List, [], ◌∷◌, ◌++◌, Bytes,
  length, length-append, ok, throw, Result, Bool, true, false, arith, Error, ◌==◌, ==_iff,
  Bool-cases, max, leb, u64, key_space_is_full, key_size_too_large, value_size_too_large,
}
use native.Mathlib.Decide.{dec_le}
use axon_cache.Ram.{load}
use axon_cache.Domain.{CacheValueType, type_code, key_length_limit, value_length_limit}
use axon_cache.Memory.{Memory}
use axon_cache.Memory.Laws.{IsHeap}
use axon_cache.Cache.{Hasher}
use axon_cache.Cache.Outcome.{type_code-lt}
use axon_cache.Chain.{ChainCache, put_chain, add_chained, add_chained_to_end}
use axon_cache.Chain.Layout.{Chained, chained_size, total_size, next_in, last_in-cases, count_in}
use axon_cache.Chain.Append.{append-Linked, other_link, home_link}
use axon_cache.Chain.Models.{
  Chains, bucket_of, base, bucket_of-lt, find_slot_offset-bucket_of, start_link, some_slots,
}
use axon_cache.Chain.Write.{Fits, AddedTo, add_chained-AddedTo, walked}

abbrev pub chained : Bytes → CacheValueType → Bytes → Chained
chained key type value = record { key = key; type = type_code type; value = value }

total_size-append :
    (log : List Chained) (r : Chained)
    → total_size (log ++ (r ∷ [])) ≡ total_size log + chained_size r
total_size-append [] r = omega arith
total_size-append (x ∷ log) r = omega (arith, total_size-append log r)

module _ (h : Hasher) (log : List Chained) (c : ChainCache) (v : Chains h log c)
    (w : IsHeap c.memory) (key : Bytes) (type : CacheValueType) (value : Bytes) where
  abbrev bucket : Bytes → ℕ
  bucket = bucket_of h c

  abbrev r : Chained
  r = chained key type value

  abbrev from : ℕ
  from = 8 * bucket key

  from_inside : from + 8 ≤ base c
  from_inside = omega (arith, bucket_of-lt h log c v key)

  -- The cache after the record was added at the memory `s`.
  abbrev after : Memory → ChainCache
  after s = record c {
    memory = s;
    key_space_block = s.block;
    max_collisions = max (max 0 (count_in bucket (bucket key) log)) c.max_collisions;
    number_of_entries = u64 (c.number_of_entries + 1);
  }

  abbrev Added : Memory → Type 0
  Added =
      AddedTo bucket c.memory from (base c) log r w v.linked (start_link h log c v key) from_inside
        v.end

  starts_after :
      (s : Memory)
      → Added s
      → (t : ℕ) → t < c.number_of_key_slots
      → ((bucket key == t) ≡ true) ⊎ ((bucket key == t) ≡ false)
      → load 8 s.bytes (8 * t) ≡ next_in bucket t (base c) (log ++ (r ∷ []))
  starts_after s added t lt (inl here) =
      let home : bucket key ≡ t = (==_iff (bucket key) t).0 here in
      rw (sym home) (
        home_link bucket c.memory.bytes s.bytes r _ _ added.appends from (base c) log
          (start_link h log c v key) (omega (arith, some_slots h log c v)) from_inside (sym v.end)
          refl)
  starts_after s added t lt (inr other) =
      other_link bucket c.memory.bytes s.bytes r _ _ added.appends t (8 * t) (base c) log
        (v.starts t lt) (omega (arith, some_slots h log c v)) (omega (arith, v.end)) other
        (elim (last_in-cases bucket (bucket key) from (base c) log
          (omega (arith, some_slots h log c v))) [
            | inl (stays, ends) ↦ ground (arith, stays)
            | inr (lo, hi, more) ↦ inl (omega (arith, lo))
          ])

  after-Chains :
      (s : Memory)
      → Added s
      → c.number_of_entries + 1 < 2 ^ 64
      → Chains h (log ++ (r ∷ [])) (after s)
  after-Chains s added room =
      let pos : 1 ≤ base c = omega (arith, some_slots h log c v) in
      record {
        bits = v.bits;
        slots = v.slots;
        addressable = v.addressable;
        linked =
            append-Linked bucket c.memory.bytes s.bytes r _ _ added.appends from (base c) log
              v.linked pos from_inside (sym v.end) refl;
        starts = λ t lt. starts_after s added t lt (Bool-cases (bucket key == t));
        end = omega (arith, added.size, v.end, total_size-append log r);
        fresh = refl;
        counted = omega (arith, v.counted, length-append log (r ∷ []));
      }

-- How a `putInternal` ends: the limit on entries comes first, then the sizes of the key and of the value.
-- A key that is there is stored again, behind its first record.
pub data Outcome (h : Hasher) (log : List Chained) (key : Bytes) (type : CacheValueType)
    (value : Bytes) (c : ChainCache) (r : Result (Bool × ℕ) × ChainCache) : Type 0 where
  full :
      c.max_number_of_entries ≤ c.number_of_entries
      → r ≡ (throw key_space_is_full, c)
      → Outcome h log key type value c r
  long_key :
      c.number_of_entries < c.max_number_of_entries
      → key_length_limit < length key
      → r ≡ (throw key_size_too_large, c)
      → Outcome h log key type value c r
  long_value :
      c.number_of_entries < c.max_number_of_entries
      → length key ≤ key_length_limit
      → value_length_limit < length value
      → r ≡ (throw value_size_too_large, c)
      → Outcome h log key type value c r
  stored :
      (collisions : ℕ) (c' : ChainCache)
      → c.number_of_entries < c.max_number_of_entries
      → (length key ≤ key_length_limit) × (length value ≤ value_length_limit)
      → r ≡ (ok (true, collisions), c')
      → Chains h (log ++ (chained key type value ∷ [])) c'
      → IsHeap c'.memory
      → collisions ≡ count_in (bucket_of h c) (bucket_of h c key) log
      → Outcome h log key type value c r

module _ (h : Hasher) (log : List Chained) (c : ChainCache) (v : Chains h log c)
    (w : IsHeap c.memory) (key : Bytes) (type : CacheValueType) (value : Bytes)
    (few : length log < 2 ^ 32) where
  put_chain-throw :
      (x : Error)
      → c.number_of_entries < c.max_number_of_entries
      → add_chained_to_end key (type_code type) value c.memory ≡ (throw x, c.memory)
      → put_chain h key type value c ≡ (throw x, c)
  unfolding put_chain add_chained
  put_chain-throw x spare refused =
      let walk =
        walked (bucket_of h c) c.memory (8 * bucket_of h c key) (base c) log
          (chained key type value) w v.linked (start_link h log c v key)
          (from_inside h log c v w key type value) v.end few in
      let below : leb c.max_number_of_entries c.number_of_entries ≡ false = ground arith in
      rw (below, find_slot_offset-bucket_of h log c v key, walk, refused) refl

  put_chain_stored :
      c.number_of_entries < c.max_number_of_entries
      → (length key ≤ key_length_limit) × (length value ≤ value_length_limit)
      → c.memory.data_size + chained_size (chained key type value) + c.memory.real_data_size / 2
        < 2 ^ 64
      → Outcome h log key type value c (put_chain h key type value c)
  unfolding put_chain
  put_chain_stored spare (short_key, short_value) room =
      let fits : Fits (chained key type value) = record {
        short_key = short_key;
        short_value = short_value;
        small_type = omega (arith, type_code-lt type);
      } in
      let (s, run, added) =
        add_chained-AddedTo (bucket_of h c) c.memory (8 * bucket_of h c key) (base c) log
          (chained key type value) w v.linked (start_link h log c v key)
          (from_inside h log c v w key type value) v.end fits few room in
      let below : leb c.max_number_of_entries c.number_of_entries ≡ false = ground arith in
      let n = count_in (bucket_of h c) (bucket_of h c key) log in
      stored (max 0 n) (after h log c v w key type value s) spare (short_key, short_value)
        (rw (below, find_slot_offset-bucket_of h log c v key, run) refl)
        (after-Chains h log c v w key type value s added (omega (arith, v.counted))) added.heap
        (omega arith)

  -- On a bucket chain cache that holds the records of `log`, fewer than 2^32, and whose block can grow,
  -- `putInternal` ends in one of these ways: it throws at the limit on entries, or for a key or a value that
  -- is too long, and changes nothing; or it returns true with the number of records in the key's bucket, and
  -- the cache holds the records of `log` and the new one behind them, also when the key was there before.
  pub put_chain-Outcome :
      c.memory.data_size + chained_size (chained key type value) + c.memory.real_data_size / 2
        < 2 ^ 64
      → Outcome h log key type value c (put_chain h key type value c)
  put_chain-Outcome room = elim (dec_le c.max_number_of_entries c.number_of_entries) [
    | yes at_limit ↦ full at_limit (unfold put_chain in ground arith)
    | no below ↦ elim (dec_le (length key) key_length_limit) [
      | no long ↦ long_key (omega arith) (omega arith) (
          put_chain-throw key_size_too_large (omega arith)
            (unfold add_chained_to_end in ground arith))
      | yes short ↦ elim (dec_le (length value) value_length_limit) [
        | no long ↦ long_value (omega arith) short (omega arith) (
            put_chain-throw value_size_too_large (omega arith)
              (unfold add_chained_to_end in ground arith))
        | yes fits ↦ put_chain_stored (omega arith) (short, fits) room
      ]
    ]
  ]
