-- ===== src/Dedup/Index.antt =====
-- Setting the frequent values of a dedup cache (include/axoncache/cache/LinearProbeDedupCache.h) keeps
-- what it holds, and gives a right index.
use axon_cache.Prelude.{
  ℕ, suc, ◌+◌, ◌^◌, ◌≤◌, ◌<◌, ◌≡◌, subst, refl, sym, inl, inr, Option, none, some, false, List, [],
  ◌∷◌, Bytes, ok, arith, length, get_elem?, bytes_eq, bytes_eq-eq, u16, Bool-cases, Option-cases,
}
use axon_cache.Ram.{Ram}
use axon_cache.Dedup.{DedupCache, find_index, emplace, collect_values, set_duplicated_values}
use axon_cache.Dedup.Found.{emplace_new, emplace_old, collect_values-get_elem?}
use axon_cache.Dedup.Values.{Stand, total, set_duplicated_values-Stand}
use axon_cache.Domain.{CacheValueType}
use axon_cache.Table.{Entry}
use axon_cache.Cache.{Hasher}
use axon_cache.Cache.Outcome.{Spec}
use axon_cache.Dedup.Entries.{Means, as_value, as_index}
use axon_cache.Dedup.Lookup.{Agrees, Holds, nothing, record_of}

-- What the index says is the place of the value.
abbrev pub IsIndex : List Bytes → List (Bytes × ℕ) → Type 0
IsIndex values entries =
    (value : Bytes) (i : ℕ)
    → find_index entries value ≡ some i
    → (i < 65536) × (get_elem? values i ≡ some value)

pub empty-IsIndex : (values : List Bytes) → IsIndex values []
unfolding find_index
empty-IsIndex values x i e = cc e

pub cons-IsIndex :
    (values : List Bytes) (entries : List (Bytes × ℕ)) (value : Bytes) (i : ℕ)
    → i < 65536
    → get_elem? values i ≡ some value
    → IsIndex values entries
    → IsIndex values ((value, i) ∷ entries)
unfolding find_index
cons-IsIndex values entries value i small at right x j e = elim (Bool-cases (bytes_eq value x)) [
  | inl same ↦
      let one : i ≡ j = ground (arith, e) in
      (omega arith, rw (sym one, sym (bytes_eq-eq value x same)) at)
  | inr other ↦ right x j (rw other at e)
]

emplace-IsIndex :
    (values : List Bytes) (entries : List (Bytes × ℕ)) (value : Bytes) (i : ℕ)
    → i < 65536
    → get_elem? values i ≡ some value
    → IsIndex values entries
    → IsIndex values (emplace entries value i)
emplace-IsIndex values entries value i small at right =
    elim (Option-cases (find_index entries value)) [
      | inl new ↦
          rw (emplace_new entries value i new) (cons-IsIndex values entries value i small at right)
      | inr (old, found) ↦ rw (emplace_old entries value i old found) right
    ]

-- The values stand in the whole list from `index` on.
abbrev Places : List Bytes → ℕ → List Bytes → Type 0
Places all index values =
    (j : ℕ) (x : Bytes) → get_elem? values j ≡ some x → get_elem? all (index + j) ≡ some x

-- The first of the values that are left, and the others, in the whole list.
first_place :
    (all : List Bytes) (index : ℕ) (value : Bytes) (values : List Bytes)
    → Places all index (value ∷ values)
    → (get_elem? all index ≡ some value) × Places all (index + 1) values
first_place all index value values place =
    let start : index + 0 ≡ index = omega arith in
    (
      subst (λ (n : ℕ). get_elem? all n ≡ some value) start (place 0 value refl),
      λ j x e.
          let shift : index + suc j ≡ index + 1 + j = omega arith in
          subst (λ (n : ℕ). get_elem? all n ≡ some x) shift (place (suc j) x e),
    )

-- The loop over the views numbers them from `index` on.
collect_values-IsIndex :
    (all : List Bytes) (m : Ram) (ptr index : ℕ) (values : List Bytes) (entries : List (Bytes × ℕ))
    → Stand m ptr values
    → index + length values ≤ 65536
    → Places all index values
    → IsIndex all entries
    → IsIndex all (collect_values m ptr index values entries).1
unfolding collect_values
collect_values-IsIndex all m ptr index [] entries s room place right = right
collect_values-IsIndex all m ptr index (value ∷ []) entries (here, s) room place right = rw here (
    emplace-IsIndex all entries value index (omega arith) (first_place all index value [] place).0
      right)
collect_values-IsIndex all m ptr index (value ∷ other ∷ values) entries (here, s) room place right =
    let next : u16 (index + 1) ≡ index + 1 = omega arith in
    rw (here, next)
      (collect_values-IsIndex all m (ptr + length value) (index + 1) (other ∷ values)
        (emplace entries value index) s (omega arith)
        (first_place all index value (other ∷ values) place).1
        (emplace-IsIndex all entries value index (omega arith)
          (first_place all index value (other ∷ values) place).0 right))

Means-more :
    (values : List Bytes) (t : CacheValueType) (x : Bytes) (e : Entry)
    → Means [] t x e
    → Means values t x e
Means-more values t x e (as_value key) = as_value key
Means-more values t x e (as_index key index size small at) = cc at

-- Without frequent values, every record holds its value itself, and still does with them.
Agrees-more :
    (values : List Bytes) (o : Option (CacheValueType × Bytes)) (e : Option Entry)
    → Agrees [] o e
    → Agrees values o e
Agrees-more values none none nothing = nothing
Agrees-more values none (some _) x = elim x [ ]
Agrees-more values (some _) none x = elim x [ ]
Agrees-more values (some _) (some _) (record_of t x e means) =
    record_of t x e (Means-more values t x e means)

-- Setting at most 65536 values of fewer than 2^62 bytes together, in a dedup cache without any, ends
-- normally; the cache keeps the map that it holds, its values are the given ones, its index has each of
-- them, and only them, and gives each a place below 65536 where it stands.
pub set_duplicated_values-Holds :
    (h : Hasher) (s : Spec) (values : List Bytes) (c : DedupCache)
    → length values ≤ 65536
    → total values < 2 ^ 62
    → c.is_values_loaded ≡ false
    → c.values_memory ≡ none
    → c.values ≡ []
    → Holds h s c
    → (c' : DedupCache) × (set_duplicated_values values c ≡ (ok tt, c'))
      × Holds h s c'
      × (c'.values ≡ values)
      × (c'.cache ≡ c.cache)
      × IsIndex values c'.values_to_index
      × ((i : ℕ) (x : Bytes)
          → get_elem? values i ≡ some x
          → (j : ℕ) × (find_index c'.values_to_index x ≡ some j))
set_duplicated_values-Holds h s values c few small unloaded unset bare v =
    let (m, stand, run) = set_duplicated_values-Stand values c few small unloaded unset in
    let right =
      collect_values-IsIndex values m.bytes 0 0 values [] stand (omega (arith, few))
        (λ j x e. let start : 0 + j ≡ j = omega arith in rw start e) (empty-IsIndex values) in
    let found = collect_values-get_elem? m.bytes 0 0 values [] stand in
    (
      _,
      run,
      record {
        answers = record {
          entries = v.entries;
          models = v.models;
          agrees = λ k. Agrees-more values (s k) (v.entries k) (rw bare at v.agrees k);
        };
        indexed = right;
        complete = λ x i at. found i x at;
      },
      refl,
      refl,
      right,
      found,
    )
