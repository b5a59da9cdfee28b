-- ===== src/Typed/Reads.antt =====
-- The typed reads over lookups that answer as a map does
-- (src/axoncache/cache/base/HashedCacheBase.cpp, include/axoncache/cache/base/HashedCacheBase.h).
use axon_cache.Prelude.{ℕ, ◌≡◌, List, Bytes, Option, Bool, ok}
use axon_cache.Domain.{CacheValueType, string, string_list}
use axon_cache.Cache.Outcome.{Spec}
use axon_cache.Cache.Lookup.{spec_get, spec_get_with_type}
use axon_cache.Typed.{
  Reader, DoubleParsers, get_string, get_bool, get_int64, get_double, get_text, get_vector,
  get_float_span, read_key, read_keys,
}
use axon_cache.Typed.Values.{
  Typed, IsEncoded, text_answer, bool_answer, int64_answer, double_answer, get_answer,
  vector_answer, span_answer, key_answer, keys_answer,
}
use axon_cache.Typed.Answers

-- The lookups of the reader are those of the map `s` under the hash function.
pub record IsReader (hash : Bytes → ℕ) (s : Spec) (r : Reader) : Type 0 where
  pub get_internal :
      (key : Bytes) (type : CacheValueType)
      → r.get_internal key type ≡ ok (spec_get (s key) type (hash key))
  pub get_with_type_internal :
      (key : Bytes) → r.get_with_type_internal key ≡ ok (spec_get_with_type (s key) (hash key))

-- Each entry of the map is the encoding of the typed value under its key.
abbrev pub Encodes : Spec → (Bytes → Option Typed) → Type 0
Encodes s typed = (key : Bytes) → IsEncoded (typed key) (s key)

module _ (hash : Bytes → ℕ) (s : Spec) (r : Reader) (laws : IsReader hash s r)
    (typed : Bytes → Option Typed) (encodes : Encodes s typed) (key : Bytes) where
  -- Over lookups that answer by a map of encoded values, `getString` answers the default and "not
  -- found" where no value was put under the key, and the text that was put there and "found" if it
  -- is a text, also an empty one. Of a value of another type it trims the empty view, which is
  -- undefined behaviour.
  pub get_string-text_answer :
      (d : Bytes) → get_string r key d ≡ text_answer d (typed key) (hash key)
  get_string-text_answer d =
      Answers.get_string-IsEncoded r key (hash key) d (encodes key) (laws.get_internal key string)

  -- Over lookups that answer by a map of encoded values, `getBool` answers a flag as it was put,
  -- whether a 64-bit integer is not 0, and what `toBool` makes of a text that is not empty, each
  -- with "found"; else the default and "not found".
  pub get_bool-bool_answer : (d : Bool) → get_bool r key d ≡ bool_answer d (typed key) (hash key)
  get_bool-bool_answer d =
      Answers.get_bool-IsEncoded r key (hash key) d (encodes key) (laws.get_with_type_internal key)

  -- Over lookups that answer by a map of encoded values, `getInt64` answers a 64-bit integer as it
  -- was put and what `toLong` makes of a text that is not empty, with "found"; else the default
  -- and "not found".
  pub get_int64-int64_answer : (d : ℕ) → get_int64 r key d ≡ int64_answer d (typed key) (hash key)
  get_int64-int64_answer d =
      Answers.get_int64-IsEncoded r key (hash key) d (encodes key) (laws.get_with_type_internal key)

  -- Over lookups that answer by a map of encoded values, `getDouble` answers a double as it was
  -- put and what `toDoubleCompatible` makes of a text that is not empty, with "found"; else the
  -- default and "not found".
  pub get_double-double_answer :
      (p : DoubleParsers) (d : ℕ) → get_double p r key d ≡ double_answer p d (typed key) (hash key)
  get_double-double_answer p d =
      Answers.get_double-IsEncoded r key (hash key) p d (encodes key)
        (laws.get_with_type_internal key)

  -- Over lookups that answer by a map of encoded values, `get` answers the text that was put under
  -- the key, and the default if it is empty, of another type or absent.
  pub get_text-get_answer : (d : Bytes) → get_text r key d ≡ get_answer d (typed key) (hash key)
  get_text-get_answer d =
      Answers.get_text-IsEncoded r key (hash key) d (encodes key) (laws.get_internal key string)

  -- Over lookups that answer by a map of encoded values, `getVector` answers the list of texts
  -- that was put under the key, and the default if it is empty, of another type or absent.
  pub get_vector-vector_answer :
      (d : List Bytes) → get_vector r key d ≡ vector_answer d (typed key) (hash key)
  get_vector-vector_answer d =
      Answers.get_vector-IsEncoded r key (hash key) d (encodes key)
        (laws.get_internal key string_list)

  -- Over lookups that answer by a map of encoded values, `getFloatSpan` answers the floats that
  -- were put under the key; it throws if the key has a text, and answers no floats if it has a
  -- value of another type or none.
  pub get_float_span-span_answer : get_float_span r key ≡ span_answer (typed key) (hash key)
  get_float_span-span_answer =
      Answers.get_float_span-IsEncoded r key (hash key) (encodes key)
        (laws.get_with_type_internal key)

  -- Over lookups that answer by a map of encoded values, `readKey` answers the text that was put
  -- under the key, or the only element of a list of texts, and the empty text for every other
  -- list, type or key.
  pub read_key-key_answer : read_key r key ≡ key_answer (typed key) (hash key)
  read_key-key_answer =
      Answers.read_key-IsEncoded r key (hash key) (encodes key) (laws.get_with_type_internal key)

  -- Over lookups that answer by a map of encoded values, `readKeys` answers the text that was put
  -- under the key as a list of one, or the list of texts that was put, and the empty list for
  -- every other type or key.
  pub read_keys-keys_answer : read_keys r key ≡ keys_answer (typed key) (hash key)
  read_keys-keys_answer =
      Answers.read_keys-IsEncoded r key (hash key) (encodes key) (laws.get_with_type_internal key)
