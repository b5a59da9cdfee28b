-- ===== src/Writer.antt =====
-- AxonCacheWriter of the C interface (src/axoncache/capi/CacheWriterCApi.cpp): inserts and their error
-- codes, over the overloads of `put` of the writer's cache.
pub mod Codes
use axon_cache.Prelude.{
  ℕ, ◌+◌, Bool, true, false, ◌&&◌, Option, none, some, List, [], ◌∷◌, Bytes, ◌==◌, map, Result, ok,
  throw, undefined, diverges, Error, key_space_is_full, offset_bits_too_short, on_ok, ◌>>=◌,
  if◌then◌else◌, u64,
}
use axon_cache.Domain.{type_code, string, double, bool, int64, float_list}
use axon_cache.Text.{to_bool, to_long, split}
use axon_cache.Settings.{to_double, c_str}
use axon_cache.Views.{NumberParser, string_view_to_vector}
use axon_cache.Typed.{DoubleParsers}
use axon_cache.Typed.Values.{Typed, text, texts, flag, whole, real, reals}
use axon_cache.Parser.{sort}
use axon_cache.Build.{Put, consume_value}

-- How the parsers read numbers.
pub record Parsers : Type 0 where
  pub doubles : DoubleParsers
  pub floats : NumberParser

-- The last error, if it was not taken, and how many inserts had each number of collisions.
pub record Writer (C : Type 0) : Type 0 where
  pub cache : C
  pub collisions_counter : List (ℕ × ℕ)
  pub offset_bits : ℕ
  pub last_error : Option Error

-- `kStringNoNullType`
abbrev pub string_no_null_type : ℕ
string_no_null_type = 127

-- `kValueVectorFlag`
abbrev pub value_vector_flag : ℕ
value_vector_flag = 1

-- `mCollisionsCounter[collisions]++`
unfoldable pub count_collisions : ℕ → List (ℕ × ℕ) → List (ℕ × ℕ)
count_collisions collisions [] = (collisions, 1) ∷ []
count_collisions collisions ((n, count) ∷ counter) =
    if n == collisions
    then (n, u64 (count + 1)) ∷ counter
    else (n, count) ∷ count_collisions collisions counter

-- The text of `offset_bits_too_short` names the cache's offset bits, and is looked for with the
-- writer's.
abbrev pub error_code : Bool → Error → ℕ
error_code same_bits offset_bits_too_short = if same_bits then 2 else 1
error_code same_bits key_space_is_full = 3
error_code same_bits _ = 1

module _ {C : Type 0} (put : Put C) (bits : C → ℕ) where
  -- The `try` block, and the codes.
  abbrev pub finish_insert : Writer C → Result (Bool × ℕ) × C → Result ℕ × Writer C
  finish_insert w (ok (stored, collisions), c) = (
    ok 0,
    record w { cache = c; collisions_counter = count_collisions collisions w.collisions_counter },
  )
  finish_insert w (throw error, c) = (
    ok (error_code (w.offset_bits == bits c) error),
    record w { cache = c; last_error = some error },
  )
  finish_insert w (undefined, c) = (undefined, record w { cache = c })
  finish_insert w (diverges, c) = (diverges, record w { cache = c })

  -- The value of `insertScalarKey`, whose conversion of floats stands outside the `try` block.
  unfoldable pub scalar_value : Parsers → ℕ → Bytes → Result Typed
  unfolding to_double to_bool to_long string_view_to_vector c_str
  scalar_value parsers type value =
      if type == type_code string
      then ok (text value)
      else if type == type_code double
      then ok (real (to_double parsers.doubles value))
      else if type == type_code bool
      then ok (flag (to_bool value))
      else if type == type_code int64
      then ok (whole (to_long value))
      else if type == type_code float_list
      then (string_view_to_vector parsers.floats b':' value >>= λ values. ok (reals values))
      else if type == string_no_null_type
      then ok (text (c_str value))
      else ok (text value)

  -- `insertScalarKey`
  unfoldable pub insert_scalar_key : Parsers → Bytes → Bytes → ℕ → Writer C → Result ℕ × Writer C
  unfolding scalar_value consume_value
  insert_scalar_key parsers key value type w =
      on_ok (scalar_value parsers type value) w
        λ typed. finish_insert w (consume_value put (key, typed) w.cache)

  -- `insertVectorKey`, behind the flag of the key; the parts are cut at a NUL after they are sorted.
  unfoldable pub insert_vector_key : Bytes → Bytes → ℕ → Writer C → Result ℕ × Writer C
  unfolding consume_value sort split c_str
  insert_vector_key key value type w =
      let parts = sort (split b'|' value) in
      let cut_parts = if type == string_no_null_type then map c_str parts else parts in
      finish_insert w (consume_value put (key, texts cut_parts) w.cache)

  -- `insertKey`
  unfoldable pub insert_key : Parsers → Bytes → Bytes → ℕ → Writer C → Result ℕ × Writer C
  unfolding insert_scalar_key insert_vector_key
  insert_key parsers [] value type w = (undefined, w)
  insert_key parsers (c ∷ key) value type w =
      if c == value_vector_flag
      then insert_vector_key key value type w
      else insert_scalar_key parsers (c ∷ key) value type w

  -- `getLastError`
  abbrev pub get_last_error : Writer C → Option Error × Writer C
  get_last_error w = (w.last_error, record w { last_error = none })

  -- `setOffsetBits`
  abbrev pub set_offset_bits : ℕ → Writer C → Writer C
  set_offset_bits offset_bits w = record w { offset_bits = offset_bits }
