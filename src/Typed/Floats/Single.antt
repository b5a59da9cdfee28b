-- ===== src/Typed/Floats/Single.antt =====
-- The float at one index, by what is stored (src/axoncache/cache/base/HashedCacheBase.cpp,
-- getFloatAtIndex).
use axon_cache.Prelude.{
  ℕ, zero, suc, ◌+◌, ◌*◌, ◌%◌, ◌^◌, ◌≤◌, ◌<◌, ◌≡◌, refl, sym, ap, ◌∙◌, inl, inr, false, List, [],
  ◌∷◌, ◌++◌, Bytes, Option, none, some, length, get_elem?, ltb, if◌then◌else◌, Bool-cases, Result,
  ok, throw, undefined, diverges, ◌>>=◌, arith,
}
use axon_cache.Ram.{le, from_le}
use axon_cache.Ram.Encoding.{length-le, from_le-le}
use axon_cache.Domain.{CacheValueType, string, float_list}
use axon_cache.Convert.{null_terminated, floats_to_string, split_bytes}
use axon_cache.Convert.Laws.{AreFloats, length-floats_to_string, split_bytes-append}
use axon_cache.Views.{NumberParser, string_view_to_vector}
use axon_cache.Cache.Outcome.{Spec}
use axon_cache.Cache.Lookup.{spec_get_with_type}
use axon_cache.Typed.{Reader}
use axon_cache.Typed.Values.{
  Typed, text, reals, bit, IsEncoded, absent, text_stored, texts_stored, flag_stored, whole_stored,
  real_stored, reals_stored,
}
use axon_cache.Typed.Stored.{
  is_empty-null_terminated, is_empty-type_to_string, is_empty-floats_to_string,
  floats_to_string-nil,
}
use axon_cache.Typed.Reads.{IsReader, Encodes}
use axon_cache.Typed.Floats.{
  is_negative, element, skip_bytes, float_at, element_by_type, get_float_at_index,
}

-- The element, 0 past the end.
abbrev pub nth : List ℕ → ℕ → ℕ
nth [] i = 0
nth (f ∷ fs) zero = f
nth (f ∷ fs) (suc i) = nth fs i

-- The element at an `int32_t`.
abbrev pub at_index : List ℕ → ℕ → ℕ
at_index fs i = if is_negative i then 0 else nth fs i

-- What `getFloatAtIndex` answers for what is stored under the key.
abbrev pub float_answer : NumberParser → Option Typed → ℕ → ℕ → Result (ℕ × ℕ)
float_answer p none i hash = ok (0, 0)
float_answer p (some (text s)) i hash =
    string_view_to_vector p b':' (null_terminated s) >>= λ values. ok (at_index values i, hash)
float_answer p (some (reals fs)) i hash = ok (at_index fs i, hash)
float_answer p (some _) i hash = ok (0, hash)

nth-past : (fs : List ℕ) (i : ℕ) → length fs ≤ i → nth fs i ≡ 0
nth-past [] i h = refl
nth-past (f ∷ fs) zero h = absurd (omega arith)
nth-past (f ∷ fs) (suc i) h = nth-past fs i (omega arith)

element-nth : (fs : List ℕ) (i : ℕ) → i < length fs → element (get_elem? fs i) ≡ ok (nth fs i)
element-nth [] i h = absurd (omega arith)
element-nth (f ∷ fs) zero h = refl
element-nth (f ∷ fs) (suc i) h = element-nth fs i (omega arith)

skip_bytes-append :
    (s rest : Bytes) (n k : ℕ) → k ≡ length s + n → skip_bytes k (s ++ rest) ≡ skip_bytes n rest
unfolding skip_bytes
skip_bytes-append [] rest n k e = ap (λ (m : ℕ). skip_bytes m rest) (omega (arith, e))
skip_bytes-append (c ∷ s) rest n zero e = absurd (omega (arith, e))
skip_bytes-append (c ∷ s) rest n (suc k) e = skip_bytes-append s rest n k (omega (arith, e))

skip_bytes-floats_to_string :
    (f : ℕ) (fs : List ℕ) (i : ℕ)
    → skip_bytes (suc i * 4) (floats_to_string (f ∷ fs)) ≡ skip_bytes (i * 4) (floats_to_string fs)
unfolding floats_to_string
skip_bytes-floats_to_string f fs i =
    skip_bytes-append (le 4 f) (floats_to_string fs) (i * 4) (suc i * 4)
      (omega (arith, length-le 4 f))

float_at-nth :
    (fs : List ℕ) (i : ℕ)
    → AreFloats fs
    → i < length fs
    → float_at (floats_to_string fs) (i * 4) ≡ ok (nth fs i)
unfolding float_at floats_to_string skip_bytes
float_at-nth [] i h lt = absurd (omega arith)
float_at-nth (f ∷ fs) zero (hf, h) lt =
    rw
      (split_bytes-append (le 4 f) (floats_to_string fs) 4 (sym (length-le 4 f)), from_le-le 4 f hf)
float_at-nth (f ∷ fs) (suc i) (hf, h) lt =
    ap (λ (s : Bytes). split_bytes 4 s >>= λ (x, _). ok (from_le x))
      (skip_bytes-floats_to_string f fs i)
    ∙ float_at-nth fs i h (omega arith)

-- The two guards.
stored-at_index :
    (p : NumberParser) (fs : List ℕ) (i : ℕ)
    → AreFloats fs
    → i < 2 ^ 32
    → element_by_type p float_list (floats_to_string fs) i ≡ ok (at_index fs i)
stored-at_index p fs i h small = elim (Bool-cases (is_negative i)) [
  | inl below ↦ rw below
  | inr above ↦ elim (Bool-cases (ltb (i * 4) (length (floats_to_string fs)))) [
    | inl inside ↦
        rw (above, inside)
          (float_at-nth fs i h (ground (arith, inside, length-floats_to_string fs)))
    | inr past ↦
        rw (above, past)
          (ap ok (sym (nth-past fs i (ground (arith, past, length-floats_to_string fs)))))
  ]
]

number-at_index :
    (p : NumberParser) (str : Bytes) (values : List ℕ) (i : ℕ)
    → string_view_to_vector p b':' str ≡ ok values
    → length values < 2 ^ 31
    → element_by_type p string str i ≡ ok (at_index values i)
number-at_index p str values i read few =
    let same : length values % 2 ^ 32 ≡ length values = omega arith in
    let counted : is_negative (length values) ≡ false = ground (arith, same) in
    elim (Bool-cases (is_negative i)) [
      | inl below ↦ rw (read, below)
      | inr above ↦ elim (Bool-cases (ltb i (length values % 2 ^ 32))) [
        | inl inside ↦
            rw (read, above, counted, inside) (element-nth values i (ground (arith, inside, same)))
        | inr past ↦
            rw (read, above, counted, past)
              (ap ok (sym (nth-past values i (ground (arith, past, same)))))
      ]
    ]

-- The answer with the hash.
abbrev with_hash : ℕ → Result ℕ → Result (ℕ × ℕ)
with_hash hash r = r >>= λ value. ok (value, hash)

at_index-nil : (i : ℕ) → at_index [] i ≡ 0
at_index-nil i = elim (Bool-cases (is_negative i)) [ inl e ↦ rw e | inr e ↦ rw e ]

text-at_index :
    (p : NumberParser) (str : Bytes) (i hash : ℕ) (x : Result (List ℕ))
    → string_view_to_vector p b':' str ≡ x
    → ((values : List ℕ) → x ≡ ok values → length values < 2 ^ 31)
    → with_hash hash (element_by_type p string str i)
      ≡ (x >>= λ values. ok (at_index values i, hash))
text-at_index p str i hash (ok values) e few =
    ap (with_hash hash) (number-at_index p str values i e (few values refl))
text-at_index p str i hash (throw x) e few = rw e
text-at_index p str i hash undefined e few = rw e
text-at_index p str i hash diverges e few = rw e

module _ (p : NumberParser) (r : Reader) (key : Bytes) (hash i : ℕ) (small : i < 2 ^ 32) where
  get_float_at_index-IsEncoded :
      {o : Option Typed} {x : Option (CacheValueType × Bytes)}
      → IsEncoded o x
      → ((s : Bytes) (values : List ℕ)
          → o ≡ some (text s)
          → string_view_to_vector p b':' (null_terminated s) ≡ ok values
          → length values < 2 ^ 31)
      → r.get_with_type_internal key ≡ ok (spec_get_with_type x hash)
      → get_float_at_index p r key i ≡ float_answer p o i hash
  unfolding get_float_at_index
  get_float_at_index-IsEncoded absent few e = rw e
  get_float_at_index-IsEncoded (text_stored s) few e =
      rw (e, is_empty-null_terminated s)
        (text-at_index p (null_terminated s) i hash
          (string_view_to_vector p b':' (null_terminated s)) refl λ values. few s values refl)
  get_float_at_index-IsEncoded (texts_stored l str dec full) few e = rw (e, full)
  get_float_at_index-IsEncoded (flag_stored b) few e = rw (e, is_empty-type_to_string 0 (bit b))
  get_float_at_index-IsEncoded (whole_stored v h) few e = rw (e, is_empty-type_to_string 7 v)
  get_float_at_index-IsEncoded (real_stored v h) few e = rw (e, is_empty-type_to_string 7 v)
  get_float_at_index-IsEncoded (reals_stored [] h) few e =
      rw (e, floats_to_string-nil, at_index-nil i)
  get_float_at_index-IsEncoded (reals_stored (f ∷ fs) h) few e =
      rw (e, is_empty-floats_to_string f fs, stored-at_index p (f ∷ fs) i h small)

-- Over lookups that answer by a map of encoded values, `getFloatAtIndex` at an `int32_t` answers the float
-- at this index of the list that was put under the key; of a text, the number at the index of what the
-- conversion makes of the stored text with its NUL, if that are fewer than 2 ^ 31 numbers, or the
-- conversion's exception; 0 at a negative index or one past the end; and 0 for every other type or key.
pub get_float_at_index-float_answer :
    (hash : Bytes → ℕ) (s : Spec) (r : Reader)
    → IsReader hash s r
    → (typed : Bytes → Option Typed) → Encodes s typed
    → (p : NumberParser) (key : Bytes) (i : ℕ) → i < 2 ^ 32
    → ((t : Bytes) (values : List ℕ)
        → typed key ≡ some (text t)
        → string_view_to_vector p b':' (null_terminated t) ≡ ok values
        → length values < 2 ^ 31)
    → get_float_at_index p r key i ≡ float_answer p (typed key) i (hash key)
get_float_at_index-float_answer hash s r laws typed encodes p key i small few =
    get_float_at_index-IsEncoded p r key (hash key) i small (encodes key) few
      (laws.get_with_type_internal key)
