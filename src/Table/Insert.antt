-- ===== src/Table/Insert.antt =====
-- Filling the empty slot where a search for a new key ended.
use axon_cache.Prelude.{
  ℕ, zero, suc, ◌+◌, ◌%◌, ◌≤◌, ◌<◌, ◌≡◌, refl, ap, inl, inr, none, some, ◌==◌, Bytes, Bool-cases,
  ==_iff, arith,
}
use axon_cache.Table.{Entry, Table, put_at, count, Walk, here, past, Reaches}

module _ (t : Table) (j : ℕ) (e : Entry) (free : t j ≡ none) where
  -- The old entries stay.
  pub put_at-old : (i : ℕ) (a : Entry) → t i ≡ some a → put_at t j e i ≡ some a
  put_at-old i a h = elim (Bool-cases (i == j)) [
    | inl same ↦ cc (ap t ((==_iff i j).0 same))
    | inr other ↦ rw other h
  ]

  pub put_at-Walk :
      {n : ℕ} {k : Bytes} {s d i : ℕ} → Walk n t k s d i → Walk n (put_at t j e) k s d i
  put_at-Walk here = here
  put_at-Walk {s = s} (past g w) =
      past (record { entry = g.entry; taken = put_at-old s g.entry g.taken; other = g.other })
        (put_at-Walk w)

  pub count-put_at_above : (n : ℕ) → n ≤ j → count n (put_at t j e) ≡ count n t
  count-put_at_above zero h = refl
  count-put_at_above (suc n) h = ground (arith, count-put_at_above n)

  -- One more entry.
  pub count-put_at : (n : ℕ) → j < n → count n (put_at t j e) ≡ count n t + 1
  count-put_at zero h = absurd (omega arith)
  count-put_at (suc n) h = elim (Bool-cases (n == j)) [
    | inl same ↦ ground (arith, count-put_at_above n, ap t ((==_iff n j).0 same))
    | inr other ↦ ground (arith, count-put_at n)
  ]

  -- Every entry is still where a search for its key ends.
  pub put_at-Reaches :
      (hash : Bytes → ℕ) (n d : ℕ)
      → Reaches hash n t
      → Walk n t e.key (hash e.key % n) d j
      → Reaches hash n (put_at t j e)
  put_at-Reaches hash n d old w i a h at = elim (Bool-cases (i == j)) [
    | inl same ↦
        let at_j : i ≡ j = (==_iff i j).0 same in
        let one : a ≡ e = ground (arith, at) in rw (at_j, one) (d, put_at-Walk w)
    | inr other ↦ let (c, v) = old i a h (rw other at at) in (c, put_at-Walk v)
  ]
