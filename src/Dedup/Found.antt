-- ===== src/Dedup/Found.antt =====
-- The index of the frequent values has each of them
-- (include/axoncache/cache/LinearProbeDedupCache.h).
use axon_cache.Prelude.{
  ℕ, zero, suc, ◌+◌, ◌∙◌, eq-bytes_eq, ◌≡◌, subst, refl, inl, inr, none, some, List, [], ◌∷◌, Bytes,
  arith, length, get_elem?, bytes_eq, u16, Bool-cases, Option-cases,
}
use axon_cache.Ram.{Ram, view}
use axon_cache.Dedup.{find_index, emplace, collect_values}
use axon_cache.Dedup.Values.{Stand}

pub emplace_new :
    (entries : List (Bytes × ℕ)) (value : Bytes) (i : ℕ)
    → find_index entries value ≡ none
    → emplace entries value i ≡ (value, i) ∷ entries
unfolding emplace
emplace_new entries value i e = rw (e, emplace) refl

pub emplace_old :
    (entries : List (Bytes × ℕ)) (value : Bytes) (i j : ℕ)
    → find_index entries value ≡ some j
    → emplace entries value i ≡ entries
unfolding emplace
emplace_old entries value i j e = rw (e, emplace) refl

-- The index has the value.
abbrev pub IsFound : List (Bytes × ℕ) → Bytes → Type 0
IsFound entries value = (j : ℕ) × (find_index entries value ≡ some j)

find_index-emplace :
    (entries : List (Bytes × ℕ)) (value : Bytes) (i : ℕ) → IsFound (emplace entries value i) value
unfolding find_index
find_index-emplace entries value i = elim (Option-cases (find_index entries value)) [
  | inl new ↦ (i, rw (emplace_new entries value i new, eq-bytes_eq value value refl) refl)
  | inr (old, found) ↦ (old, rw (emplace_old entries value i old found) found)
]

emplace-IsFound :
    (entries : List (Bytes × ℕ)) (value : Bytes) (i : ℕ) (x : Bytes)
    → IsFound entries x
    → IsFound (emplace entries value i) x
unfolding find_index
emplace-IsFound entries value i x (j, at) = elim (Option-cases (find_index entries value)) [
  | inl new ↦ elim (Bool-cases (bytes_eq value x)) [
    | inl same ↦ (i, rw (emplace_new entries value i new, same) refl)
    | inr other ↦ (j, rw (emplace_new entries value i new, other) at)
  ]
  | inr (old, found) ↦ (j, rw (emplace_old entries value i old found) at)
]

-- The loop over the views keeps what the index has, and adds each value.
collect_values-IsFound :
    (m : Ram) (ptr index : ℕ) (values : List Bytes) (entries : List (Bytes × ℕ)) (x : Bytes)
    → IsFound entries x
    → IsFound (collect_values m ptr index values entries).1 x
unfolding collect_values
collect_values-IsFound m ptr index [] entries x found = found
collect_values-IsFound m ptr index (value ∷ values) entries x found =
    collect_values-IsFound m (ptr + length value) (u16 (index + 1)) values
      (emplace entries (view m ptr (length value)) index) x
      (emplace-IsFound entries (view m ptr (length value)) index x found)

pub collect_values-get_elem? :
    (m : Ram) (ptr index : ℕ) (values : List Bytes) (entries : List (Bytes × ℕ))
    → Stand m ptr values
    → (i : ℕ) (x : Bytes) → get_elem? values i ≡ some x
    → IsFound (collect_values m ptr index values entries).1 x
unfolding collect_values
collect_values-get_elem? m ptr index [] entries s i x at = absurd (cc at)
collect_values-get_elem? m ptr index (value ∷ values) entries (here, s) zero x at =
    let same : value ≡ x = ground (arith, at) in
    let found = find_index-emplace entries (view m ptr (length value)) index in
    collect_values-IsFound m (ptr + length value) (u16 (index + 1)) values
      (emplace entries (view m ptr (length value)) index) x
      (subst (IsFound (emplace entries (view m ptr (length value)) index)) (here ∙ same) found)
collect_values-get_elem? m ptr index (value ∷ values) entries (here, s) (suc i) x at =
    collect_values-get_elem? m (ptr + length value) (u16 (index + 1)) values
      (emplace entries (view m ptr (length value)) index) s i x at
