-- ===== src/Typed/Answers.antt =====
-- The typed reads answer by the typed value that was put under the key
-- (src/axoncache/cache/base/HashedCacheBase.cpp).
use axon_cache.Prelude.{ℕ, ◌≡◌, List, [], ◌∷◌, Bytes, Option, Bool, ok}
use axon_cache.Domain.{CacheValueType, string, string_list}
use axon_cache.Convert.Laws.{
  trim_extra_null_terminator-null_terminated, trim_extra_null_terminator-nil,
  type_from_string-type_to_string, floats_from_string-floats_to_string,
}
use axon_cache.Cache.Lookup.{spec_get, spec_get_with_type}
use axon_cache.Typed.{
  Reader, DoubleParsers, get_string, get_with_type, get_bool, get_int64, get_double, get_text,
  get_vector, get_float_span, read_key, read_keys,
}
use axon_cache.Typed.Values.{
  Typed, IsEncoded, absent, text_stored, texts_stored, flag_stored, whole_stored, real_stored,
  reals_stored, bit, text_answer, bool_answer, int64_answer, double_answer, get_answer,
  vector_answer, span_answer, key_answer, keys_answer,
}
use axon_cache.Typed.Stored.{
  is_empty-null_terminated, shown-null_terminated, bit-lt, is_empty-type_to_string,
  is_empty-floats_to_string, not-bit, floats_to_string-nil, or_default-same,
}

module _ (r : Reader) (key : Bytes) (hash : ℕ) where
  pub get_string-IsEncoded :
      (d : Bytes) {o : Option Typed} {x : Option (CacheValueType × Bytes)}
      → IsEncoded o x
      → r.get_internal key string ≡ ok (spec_get x string hash)
      → get_string r key d ≡ text_answer d o hash
  unfolding get_string
  get_string-IsEncoded d absent e = rw e
  get_string-IsEncoded d (text_stored s) e = rw (e, trim_extra_null_terminator-null_terminated s)
  get_string-IsEncoded d (texts_stored l str dec full) e = rw (e, trim_extra_null_terminator-nil)
  get_string-IsEncoded d (flag_stored b) e = rw (e, trim_extra_null_terminator-nil)
  get_string-IsEncoded d (whole_stored v h) e = rw (e, trim_extra_null_terminator-nil)
  get_string-IsEncoded d (real_stored v h) e = rw (e, trim_extra_null_terminator-nil)
  get_string-IsEncoded d (reals_stored fs h) e = rw (e, trim_extra_null_terminator-nil)

  pub get_text-IsEncoded :
      (d : Bytes) {o : Option Typed} {x : Option (CacheValueType × Bytes)}
      → IsEncoded o x
      → r.get_internal key string ≡ ok (spec_get x string hash)
      → get_text r key d ≡ get_answer d o hash
  unfolding get_text
  get_text-IsEncoded d absent e = rw e
  get_text-IsEncoded d (text_stored s) e =
      rw (e, is_empty-null_terminated s, trim_extra_null_terminator-null_terminated s)
  get_text-IsEncoded d (texts_stored l str dec full) e = rw e
  get_text-IsEncoded d (flag_stored b) e = rw e
  get_text-IsEncoded d (whole_stored v h) e = rw e
  get_text-IsEncoded d (real_stored v h) e = rw e
  get_text-IsEncoded d (reals_stored fs h) e = rw e

  pub get_vector-IsEncoded :
      (d : List Bytes) {o : Option Typed} {x : Option (CacheValueType × Bytes)}
      → IsEncoded o x
      → r.get_internal key string_list ≡ ok (spec_get x string_list hash)
      → get_vector r key d ≡ vector_answer d o hash
  unfolding get_vector
  get_vector-IsEncoded d absent e = rw (e, or_default-same d)
  get_vector-IsEncoded d (text_stored s) e = rw (e, or_default-same d)
  get_vector-IsEncoded d (texts_stored l str dec full) e = rw (e, full, dec)
  get_vector-IsEncoded d (flag_stored b) e = rw (e, or_default-same d)
  get_vector-IsEncoded d (whole_stored v h) e = rw (e, or_default-same d)
  get_vector-IsEncoded d (real_stored v h) e = rw (e, or_default-same d)
  get_vector-IsEncoded d (reals_stored fs h) e = rw (e, or_default-same d)

  pub get_bool-IsEncoded :
      (d : Bool) {o : Option Typed} {x : Option (CacheValueType × Bytes)}
      → IsEncoded o x
      → r.get_with_type_internal key ≡ ok (spec_get_with_type x hash)
      → get_bool r key d ≡ bool_answer d o hash
  unfolding get_bool get_with_type
  get_bool-IsEncoded d absent e = rw e
  get_bool-IsEncoded d (text_stored []) e = rw (e, shown-null_terminated [])
  get_bool-IsEncoded d (text_stored (c ∷ s)) e = rw (e, shown-null_terminated (c ∷ s))
  get_bool-IsEncoded d (texts_stored l str dec full) e = rw e
  get_bool-IsEncoded d (flag_stored b) e = rw (
    e,
    is_empty-type_to_string 0 (bit b),
    type_from_string-type_to_string 1 (bit b) (bit-lt b),
    not-bit b,
  )
  get_bool-IsEncoded d (whole_stored v h) e =
      rw (e, is_empty-type_to_string 7 v, type_from_string-type_to_string 8 v h)
  get_bool-IsEncoded d (real_stored v h) e = rw (e, is_empty-type_to_string 7 v)
  get_bool-IsEncoded d (reals_stored [] h) e = rw (e, floats_to_string-nil)
  get_bool-IsEncoded d (reals_stored (f ∷ fs) h) e = rw (e, is_empty-floats_to_string f fs)

  pub get_int64-IsEncoded :
      (d : ℕ) {o : Option Typed} {x : Option (CacheValueType × Bytes)}
      → IsEncoded o x
      → r.get_with_type_internal key ≡ ok (spec_get_with_type x hash)
      → get_int64 r key d ≡ int64_answer d o hash
  unfolding get_int64 get_with_type
  get_int64-IsEncoded d absent e = rw e
  get_int64-IsEncoded d (text_stored []) e = rw (e, shown-null_terminated [])
  get_int64-IsEncoded d (text_stored (c ∷ s)) e = rw (e, shown-null_terminated (c ∷ s))
  get_int64-IsEncoded d (texts_stored l str dec full) e = rw e
  get_int64-IsEncoded d (flag_stored b) e = rw (e, is_empty-type_to_string 0 (bit b))
  get_int64-IsEncoded d (whole_stored v h) e =
      rw (e, is_empty-type_to_string 7 v, type_from_string-type_to_string 8 v h)
  get_int64-IsEncoded d (real_stored v h) e = rw (e, is_empty-type_to_string 7 v)
  get_int64-IsEncoded d (reals_stored [] h) e = rw (e, floats_to_string-nil)
  get_int64-IsEncoded d (reals_stored (f ∷ fs) h) e = rw (e, is_empty-floats_to_string f fs)

  pub get_double-IsEncoded :
      (p : DoubleParsers) (d : ℕ) {o : Option Typed} {x : Option (CacheValueType × Bytes)}
      → IsEncoded o x
      → r.get_with_type_internal key ≡ ok (spec_get_with_type x hash)
      → get_double p r key d ≡ double_answer p d o hash
  unfolding get_double get_with_type
  get_double-IsEncoded p d absent e = rw e
  get_double-IsEncoded p d (text_stored []) e = rw (e, shown-null_terminated [])
  get_double-IsEncoded p d (text_stored (c ∷ s)) e = rw (e, shown-null_terminated (c ∷ s))
  get_double-IsEncoded p d (texts_stored l str dec full) e = rw e
  get_double-IsEncoded p d (flag_stored b) e = rw (e, is_empty-type_to_string 0 (bit b))
  get_double-IsEncoded p d (whole_stored v h) e = rw (e, is_empty-type_to_string 7 v)
  get_double-IsEncoded p d (real_stored v h) e =
      rw (e, is_empty-type_to_string 7 v, type_from_string-type_to_string 8 v h)
  get_double-IsEncoded p d (reals_stored [] h) e = rw (e, floats_to_string-nil)
  get_double-IsEncoded p d (reals_stored (f ∷ fs) h) e = rw (e, is_empty-floats_to_string f fs)

  pub get_float_span-IsEncoded :
      {o : Option Typed} {x : Option (CacheValueType × Bytes)}
      → IsEncoded o x
      → r.get_with_type_internal key ≡ ok (spec_get_with_type x hash)
      → get_float_span r key ≡ span_answer o hash
  unfolding get_float_span
  get_float_span-IsEncoded absent e = rw e
  get_float_span-IsEncoded (text_stored s) e = rw (e, is_empty-null_terminated s)
  get_float_span-IsEncoded (texts_stored l str dec full) e = rw (e, full)
  get_float_span-IsEncoded (flag_stored b) e = rw (e, is_empty-type_to_string 0 (bit b))
  get_float_span-IsEncoded (whole_stored v h) e = rw (e, is_empty-type_to_string 7 v)
  get_float_span-IsEncoded (real_stored v h) e = rw (e, is_empty-type_to_string 7 v)
  get_float_span-IsEncoded (reals_stored [] h) e = rw (e, floats_to_string-nil)
  get_float_span-IsEncoded (reals_stored (f ∷ fs) h) e =
      rw (e, is_empty-floats_to_string f fs, floats_from_string-floats_to_string (f ∷ fs) h)

  pub read_key-IsEncoded :
      {o : Option Typed} {x : Option (CacheValueType × Bytes)}
      → IsEncoded o x
      → r.get_with_type_internal key ≡ ok (spec_get_with_type x hash)
      → read_key r key ≡ key_answer o hash
  unfolding read_key
  read_key-IsEncoded absent e = rw e
  read_key-IsEncoded (text_stored s) e =
      rw (e, is_empty-null_terminated s, trim_extra_null_terminator-null_terminated s)
  read_key-IsEncoded (texts_stored l str dec full) e = rw (e, full, dec)
  read_key-IsEncoded (flag_stored b) e = rw (e, is_empty-type_to_string 0 (bit b))
  read_key-IsEncoded (whole_stored v h) e = rw (e, is_empty-type_to_string 7 v)
  read_key-IsEncoded (real_stored v h) e = rw (e, is_empty-type_to_string 7 v)
  read_key-IsEncoded (reals_stored [] h) e = rw (e, floats_to_string-nil)
  read_key-IsEncoded (reals_stored (f ∷ fs) h) e = rw (e, is_empty-floats_to_string f fs)

  pub read_keys-IsEncoded :
      {o : Option Typed} {x : Option (CacheValueType × Bytes)}
      → IsEncoded o x
      → r.get_with_type_internal key ≡ ok (spec_get_with_type x hash)
      → read_keys r key ≡ keys_answer o hash
  unfolding read_keys
  read_keys-IsEncoded absent e = rw e
  read_keys-IsEncoded (text_stored s) e =
      rw (e, is_empty-null_terminated s, trim_extra_null_terminator-null_terminated s)
  read_keys-IsEncoded (texts_stored l str dec full) e = rw (e, full, dec)
  read_keys-IsEncoded (flag_stored b) e = rw (e, is_empty-type_to_string 0 (bit b))
  read_keys-IsEncoded (whole_stored v h) e = rw (e, is_empty-type_to_string 7 v)
  read_keys-IsEncoded (real_stored v h) e = rw (e, is_empty-type_to_string 7 v)
  read_keys-IsEncoded (reals_stored [] h) e = rw (e, floats_to_string-nil)
  read_keys-IsEncoded (reals_stored (f ∷ fs) h) e = rw (e, is_empty-floats_to_string f fs)
