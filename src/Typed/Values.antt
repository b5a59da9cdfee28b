-- ===== src/Typed/Values.antt =====
-- The values that the typed writes store, by the type and the bytes that they are stored as
-- (the overloads of `put` in include/axoncache/cache/base/HashedCacheBase.h).
use axon_cache.Prelude.{
  ℕ, ◌^◌, ◌<◌, ◌≤◌, Bool, true, false, List, Bytes, Option, none, some, length, Result, ok, throw,
  undefined, ◌>>=◌, ◌≡◌, is_empty, [], ◌∷◌, not, ◌==◌, type_is_string,
}
use axon_cache.Domain.{
  CacheValueType, string, string_list, bool, int64, double, float_list, vector_length_limit,
}
use axon_cache.Convert.{
  null_terminated, string_list_to_string, string_list_from_string, type_to_string, floats_to_string,
}
use axon_cache.Text.{to_bool, to_long}
use axon_cache.Typed.{Answer, DoubleParsers, to_double_compatible, or_default, only_one}
use axon_cache.Convert.Laws.{AreShort, AreFloats}

-- The argument of an overload of `put`. Numbers are bit patterns.
pub data Typed : Type 0 where
  text : Bytes → Typed
  texts : List Bytes → Typed
  flag : Bool → Typed
  whole : ℕ → Typed
  real : ℕ → Typed
  reals : List ℕ → Typed

abbrev pub bit : Bool → ℕ
bit true = 1
bit false = 0

-- What each overload of `put` hands to `putInternal`, if it does not throw.
unfoldable pub encode : Typed → Result (CacheValueType × Bytes)
encode (text s) = ok (string, null_terminated s)
encode (texts l) = string_list_to_string l >>= λ str. ok (string_list, str)
encode (flag b) = ok (bool, type_to_string 1 (bit b))
encode (whole v) = ok (int64, type_to_string 8 v)
encode (real v) = ok (double, type_to_string 8 v)
encode (reals fs) = ok (float_list, floats_to_string fs)

-- A value that the program can hold, and a list that fits its length fields.
abbrev pub IsTyped : Typed → Type 0
IsTyped (text s) = Unit {0}
IsTyped (texts l) = (length l ≤ vector_length_limit) × AreShort l
IsTyped (flag b) = Unit {0}
IsTyped (whole v) = v < 256 ^ 8
IsTyped (real v) = v < 256 ^ 8
IsTyped (reals fs) = AreFloats fs

-- What the cache stores under a key, next to the typed value that was put there.
pub data IsEncoded : Option Typed → Option (CacheValueType × Bytes) → Type 0 where
  absent : IsEncoded none none
  text_stored : (s : Bytes) → IsEncoded (some (text s)) (some (string, null_terminated s))
  texts_stored :
      (l : List Bytes) (str : Bytes)
      → string_list_from_string str ≡ ok l
      → is_empty str ≡ false
      → IsEncoded (some (texts l)) (some (string_list, str))
  flag_stored : (b : Bool) → IsEncoded (some (flag b)) (some (bool, type_to_string 1 (bit b)))
  whole_stored :
      (v : ℕ) → v < 256 ^ 8 → IsEncoded (some (whole v)) (some (int64, type_to_string 8 v))
  real_stored :
      (v : ℕ) → v < 256 ^ 8 → IsEncoded (some (real v)) (some (double, type_to_string 8 v))
  reals_stored :
      (fs : List ℕ)
      → AreFloats fs
      → IsEncoded (some (reals fs)) (some (float_list, floats_to_string fs))

-- What each read answers, by the typed value that was put under the key. `getString` of a key of
-- another type runs into the view of size 0.
abbrev pub text_answer : Bytes → Option Typed → ℕ → Answer Bytes
text_answer d none hash = ok ((d, false), 0)
text_answer d (some (text s)) hash = ok ((s, true), hash)
text_answer d (some _) hash = undefined

abbrev pub unless_empty {ℓ} : {A : Type ℓ} → A → Bytes → A → A × Bool
unless_empty d [] a = (d, false)
unless_empty d (x ∷ s) a = (a, true)

abbrev pub bool_answer : Bool → Option Typed → ℕ → Answer Bool
bool_answer d none hash = ok ((d, false), 0)
bool_answer d (some (text s)) hash = ok (unless_empty d s (to_bool s), hash)
bool_answer d (some (flag b)) hash = ok ((b, true), hash)
bool_answer d (some (whole v)) hash = ok ((not (v == 0), true), hash)
bool_answer d (some _) hash = ok ((d, false), hash)

abbrev pub int64_answer : ℕ → Option Typed → ℕ → Answer ℕ
int64_answer d none hash = ok ((d, false), 0)
int64_answer d (some (text s)) hash = ok (unless_empty d s (to_long s), hash)
int64_answer d (some (whole v)) hash = ok ((v, true), hash)
int64_answer d (some _) hash = ok ((d, false), hash)

abbrev pub double_answer : DoubleParsers → ℕ → Option Typed → ℕ → Answer ℕ
double_answer p d none hash = ok ((d, false), 0)
double_answer p d (some (text s)) hash = ok (unless_empty d s (to_double_compatible p s), hash)
double_answer p d (some (real v)) hash = ok ((v, true), hash)
double_answer p d (some _) hash = ok ((d, false), hash)

abbrev pub get_answer : Bytes → Option Typed → ℕ → Result (Bytes × ℕ)
get_answer d none hash = ok (d, 0)
get_answer d (some (text s)) hash = ok (or_default d s, hash)
get_answer d (some _) hash = ok (d, hash)

abbrev pub vector_answer : List Bytes → Option Typed → ℕ → Result (List Bytes × ℕ)
vector_answer d none hash = ok (d, 0)
vector_answer d (some (texts l)) hash = ok (or_default d l, hash)
vector_answer d (some _) hash = ok (d, hash)

abbrev pub span_answer : Option Typed → ℕ → Result (List ℕ × ℕ)
span_answer none hash = ok ([], 0)
span_answer (some (text s)) hash = throw type_is_string
span_answer (some (reals fs)) hash = ok (fs, hash)
span_answer (some _) hash = ok ([], hash)

abbrev pub key_answer : Option Typed → ℕ → Result (Bytes × ℕ)
key_answer none hash = ok ([], 0)
key_answer (some (text s)) hash = ok (s, hash)
key_answer (some (texts l)) hash = ok (only_one l, hash)
key_answer (some _) hash = ok ([], hash)

abbrev pub keys_answer : Option Typed → ℕ → Result (List Bytes × ℕ)
keys_answer none hash = ok ([], 0)
keys_answer (some (text s)) hash = ok (s ∷ [], hash)
keys_answer (some (texts l)) hash = ok (l, hash)
keys_answer (some _) hash = ok ([], hash)
