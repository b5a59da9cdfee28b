-- ===== src/Typed/Floats/Elements.antt =====
-- The element at several indices is the element at each (src/axoncache/cache/base/HashedCacheBase.cpp).
use axon_cache.Prelude.{
  not, ◌&&◌, length, ltb, ◌%◌, ◌^◌, get_elem?, if◌then◌else◌, ap, ℕ, ◌≡◌, refl, sym, ◌∙◌, inl, inr,
  true, false, List, [], ◌∷◌, Bytes, is_empty, Bool-cases, Result, ok, throw, undefined, diverges,
  ◌>>=◌,
}
use axon_cache.Domain.{CacheValueType, string, float_list}
use axon_cache.Views.{NumberParser, string_view_to_vector}
use axon_cache.Typed.{Reader}
use axon_cache.Typed.Floats.{
  get_float_at_indices, get_float_at_index, elements_by_type, element_by_type, numbers_at,
  stored_at, zeros, is_negative, element,
}

-- The elements of a lookup at several indices, one lookup of one index at a time.
abbrev pub one_by_one : NumberParser → Reader → Bytes → List ℕ → Result (List ℕ)
one_by_one p r key [] = ok []
one_by_one p r key (i ∷ is) = get_float_at_index p r key i >>= λ (value, _).
    one_by_one p r key is >>= λ values. ok (value ∷ values)

abbrev pub values_only : Result (List ℕ × ℕ) → Result (List ℕ)
values_only x = x >>= λ (values, _). ok values

paired :
    {A : Type 0} (x : Result ℕ) (hash : ℕ) (k : ℕ → Result A)
    → (x >>= k) ≡ ((x >>= λ value. ok (value, hash)) >>= λ (value, _). k value)
paired (ok a) hash k = refl
paired (throw e) hash k = refl
paired undefined hash k = refl
paired diverges hash k = refl

-- A number of a text, within the bounds.
abbrev number_at : List ℕ → ℕ → Result ℕ
number_at values i =
    if not (is_negative i) && (not (is_negative (length values)) && ltb i (length values % 2 ^ 32))
    then element (get_elem? values i)
    else ok 0

unpaired : (x : Result (List ℕ)) (hash : ℕ) → values_only (x >>= λ values. ok (values, hash)) ≡ x
unpaired (ok a) hash = refl
unpaired (throw e) hash = refl
unpaired undefined hash = refl
unpaired diverges hash = refl

module _ (p : NumberParser) (r : Reader) (key : Bytes) (hash : ℕ) where
  one_by_one-zeros :
      ((i : ℕ) → get_float_at_index p r key i ≡ ok (0, hash))
      → (is : List ℕ) → one_by_one p r key is ≡ ok (zeros is)
  one_by_one-zeros none_found [] = refl
  one_by_one-zeros none_found (i ∷ is) = rw (one_by_one-zeros none_found is, none_found i)

  module _ (str : Bytes) (full : is_empty str ≡ false) where
    stored_at-one_by_one :
        r.get_with_type_internal key ≡ ok ((str, float_list), hash)
        → (is : List ℕ) → stored_at str is ≡ one_by_one p r key is
    unfolding get_float_at_index
    stored_at-one_by_one found [] = refl
    stored_at-one_by_one found (i ∷ is) =
        rw (stored_at-one_by_one found is, found, full)
          (paired (element_by_type p float_list str i) hash _)

    numbers_at-one_by_one :
        (values : List ℕ)
        → r.get_with_type_internal key ≡ ok ((str, string), hash)
        → string_view_to_vector p b':' str ≡ ok values
        → (is : List ℕ) → numbers_at values is ≡ one_by_one p r key is
    unfolding get_float_at_index
    numbers_at-one_by_one values found read [] = refl
    numbers_at-one_by_one values found read (i ∷ is) =
        rw (numbers_at-one_by_one values found read is, found, full, read)
          (paired (number_at values i) hash _)

    text-one_by_one :
        (x : Result (List ℕ)) (i : ℕ) (is : List ℕ)
        → r.get_with_type_internal key ≡ ok ((str, string), hash)
        → string_view_to_vector p b':' str ≡ x
        → elements_by_type p string str (i ∷ is) ≡ one_by_one p r key (i ∷ is)
    unfolding get_float_at_index
    text-one_by_one (ok values) i is found e = rw e (numbers_at-one_by_one values found e (i ∷ is))
    text-one_by_one (throw x) i is found e = rw (found, full, e)
    text-one_by_one undefined i is found e = rw (found, full, e)
    text-one_by_one diverges i is found e = rw (found, full, e)

    by_type :
        (type : CacheValueType) (i : ℕ) (is : List ℕ)
        → r.get_with_type_internal key ≡ ok ((str, type), hash)
        → elements_by_type p type str (i ∷ is) ≡ one_by_one p r key (i ∷ is)
    unfolding get_float_at_index
    by_type string i is found = text-one_by_one (string_view_to_vector p b':' str) i is found refl
    by_type float_list i is found = stored_at-one_by_one found (i ∷ is)
    by_type _ i is found = sym (one_by_one-zeros (λ j. rw (found, full)) (i ∷ is))

  empty-zeros :
      (str : Bytes) (type : CacheValueType)
      → r.get_with_type_internal key ≡ ok ((str, type), hash)
      → is_empty str ≡ true
      → (is : List ℕ) → one_by_one p r key is ≡ ok (zeros is)
  unfolding get_float_at_index
  empty-zeros str type found empty = one_by_one-zeros (λ j. rw (found, empty))

  module _ (str : Bytes) (type : CacheValueType) (i : ℕ) (is : List ℕ)
      (found : r.get_with_type_internal key ≡ ok ((str, type), hash)) where
    with_empty :
        is_empty str ≡ true → get_float_at_indices p r key (i ∷ is) ≡ ok (zeros (i ∷ is), hash)
    unfolding get_float_at_indices
    with_empty empty = rw (found, empty)

    with_full :
        is_empty str ≡ false
        → get_float_at_indices p r key (i ∷ is)
          ≡ (elements_by_type p type str (i ∷ is) >>= λ values. ok (values, hash))
    unfolding get_float_at_indices
    with_full full = rw (found, full)

  indices_found :
      (str : Bytes) (type : CacheValueType) (i : ℕ) (is : List ℕ)
      → r.get_with_type_internal key ≡ ok ((str, type), hash)
      → values_only (get_float_at_indices p r key (i ∷ is)) ≡ one_by_one p r key (i ∷ is)
  unfolding get_float_at_indices
  indices_found str type i is found = elim (Bool-cases (is_empty str)) [
    | inl empty ↦
        ap values_only (with_empty str type i is found empty)
        ∙ sym (empty-zeros str type found empty (i ∷ is))
    | inr full ↦
        ap values_only (with_full str type i is found full)
        ∙ unpaired (elements_by_type p type str (i ∷ is)) hash
        ∙ by_type str full type i is found
  ]

by_lookup :
    (p : NumberParser) (r : Reader) (key : Bytes) (i : ℕ) (is : List ℕ)
    (x : Result ((Bytes × CacheValueType) × ℕ))
    → r.get_with_type_internal key ≡ x
    → values_only (get_float_at_indices p r key (i ∷ is)) ≡ one_by_one p r key (i ∷ is)
unfolding get_float_at_indices get_float_at_index
by_lookup p r key i is (ok ((str, type), hash)) e = indices_found p r key hash str type i is e
by_lookup p r key i is (throw x) e = rw e
by_lookup p r key i is undefined e = rw e
by_lookup p r key i is diverges e = rw e

-- `getFloatAtIndices` at one index or more ends as the calls of `getFloatAtIndex` at each of them in
-- turn do, with their values or in the first exception, whatever the lookup of the key ends in.
pub get_float_at_indices-one_by_one :
    (p : NumberParser) (r : Reader) (key : Bytes) (i : ℕ) (is : List ℕ)
    → values_only (get_float_at_indices p r key (i ∷ is)) ≡ one_by_one p r key (i ∷ is)
get_float_at_indices-one_by_one p r key i is =
    by_lookup p r key i is (r.get_with_type_internal key) refl
