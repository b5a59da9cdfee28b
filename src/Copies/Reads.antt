-- ===== src/Copies/Reads.antt =====
-- What the copies are of (src/axoncache/capi/CacheReaderCApi.cpp).
use axon_cache.Prelude.{
  ℕ, zero, suc, ◌-◌, ◌^◌, ◌<◌, ◌≡◌, refl, ap, ◌∙◌, Bool, true, false, Option, none, some, List, [],
  ◌∷◌, Bytes, length, leb, ◌==◌, get_elem?, Result, ok, undefined, ◌>>=◌, arith,
}
use axon_cache.Domain.{linear_probe, cache_type_code}
use axon_cache.Cache.Outcome.{Spec}
use axon_cache.Typed.{Reader, or_default}
use axon_cache.Typed.Values.{
  Typed, text, texts, flag, whole, real, reals, text_answer, vector_answer,
}
use axon_cache.Typed.Reads.{IsReader, Encodes, get_string-text_answer, get_vector-vector_answer}
use axon_cache.Copies.{
  CacheReader, select_probe, select_any, copied, copied_list, get_key, item_at, get_vector_key_item,
  get_vector_key_size, get_vector_copy,
}

-- The copy that stands for what is under a key: of a text; that of a value of another type is
-- undefined.
abbrev pub text_copy : Option Typed → Result ((Option Bytes × ℕ) × Bool)
text_copy none = ok ((none, 0), false)
text_copy (some (text s)) = ok (copied s, true)
text_copy (some _) = undefined

-- The list that is under a key.
abbrev pub list_of : Option Typed → List Bytes
list_of (some (texts l)) = l
list_of _ = []

abbrev pub copied_if : Option Bytes → Option Bytes × ℕ
copied_if none = (none, 0)
copied_if (some item) = copied item

item_at-get_elem? : (items : List Bytes) (i : ℕ) → item_at items i ≡ copied_if (get_elem? items i)
unfolding item_at
item_at-get_elem? [] i = refl
item_at-get_elem? (item ∷ items) zero = refl
item_at-get_elem? (item ∷ items) (suc i) =
    let first : (suc i == 0) ≡ false = ground arith in
    let next : suc i - 1 ≡ i = omega arith in rw (first, next) (item_at-get_elem? items i)

or_default-nil : (l : List Bytes) → or_default [] l ≡ l
or_default-nil [] = refl
or_default-nil (x ∷ l) = refl

vector_answer-list_of :
    (o : Option Typed) (hash : ℕ) → (n : ℕ) × (vector_answer [] o hash ≡ ok (list_of o, n))
vector_answer-list_of none hash = (0, refl)
vector_answer-list_of (some (texts l)) hash = (hash, rw (or_default-nil l))
vector_answer-list_of (some (text s)) hash = (hash, refl)
vector_answer-list_of (some (flag b)) hash = (hash, refl)
vector_answer-list_of (some (whole v)) hash = (hash, refl)
vector_answer-list_of (some (real v)) hash = (hash, refl)
vector_answer-list_of (some (reals fs)) hash = (hash, refl)

text_answer-text_copy :
    (o : Option Typed) (hash : ℕ)
    → (text_answer [] o hash >>= λ ((value, is_exist), h). ok (copied value, is_exist))
      ≡ text_copy o
text_answer-text_copy none hash = refl
text_answer-text_copy (some (text s)) hash = refl
text_answer-text_copy (some (texts l)) hash = refl
text_answer-text_copy (some (flag b)) hash = refl
text_answer-text_copy (some (whole v)) hash = refl
text_answer-text_copy (some (real v)) hash = refl
text_answer-text_copy (some (reals fs)) hash = refl

module _ (hash : Bytes → ℕ) (s : Spec) (reader : Reader) (laws : IsReader hash s reader)
    (typed : Bytes → Option Typed) (encodes : Encodes s typed) (contains : Bytes → Result Bool)
    (r : CacheReader) (type : r.cache_type ≡ cache_type_code linear_probe)
    (held : r.linear_probe_cache ≡ some (record { reader = reader; contains = contains }))
    (key : Bytes) where
  get_key-text_copy : get_key r (some key) ≡ text_copy (typed key)
  unfolding get_key select_any select_probe
  get_key-text_copy =
      rw (type, held, get_string-text_answer hash s reader laws typed encodes key [])
        (text_answer-text_copy (typed key) (hash key))

  -- A C reader that loaded a linear probe cache whose lookups answer by a map of encoded values returns
  -- for a key: from `getKey`, the copy and the size of the text under it, and whether there is one, while
  -- a value of another type is undefined behaviour; from `getVectorKeySize`, the length of the list under
  -- it, 0 if there is none; from `getVectorKeyItem`, at an index that is not negative, the copy of that
  -- element of the list, or null past its end; and from `getVector`, the copies of all elements.
  pub get_key-copied :
      (get_key r (some key) ≡ text_copy (typed key))
      × (get_vector_key_size r (some key) ≡ ok (length (list_of (typed key))))
      × ((i : ℕ)
          → i < 2 ^ 31
          → get_vector_key_item r (some key) i ≡ ok (copied_if (get_elem? (list_of (typed key)) i)))
      × (get_vector_copy r (some key) ≡ ok (copied_list (list_of (typed key))))
  unfolding get_vector_key_size get_vector_key_item get_vector_copy select_probe
  get_key-copied =
      let (n, list) = vector_answer-list_of (typed key) (hash key) in
      let answer = get_vector-vector_answer hash s reader laws typed encodes key [] ∙ list in
      (
        get_key-text_copy,
        rw (type, held, answer),
        λ i small.
            let positive : leb (2 ^ 31) i ≡ false = ground arith in
            rw (type, held, answer, positive) (ap ok (item_at-get_elem? (list_of (typed key)) i)),
        rw (type, held, answer),
      )
