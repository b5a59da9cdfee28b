-- ===== src/Chain/Layout.antt =====
-- Where the records of a bucket chain cache stand, and how they are linked
-- (src/axoncache/cache/value/ChainedValue.cpp): one behind the other, each with the offset of the
-- next record of its bucket.
use axon_cache.Prelude.{
  ℕ, ◌+◌, ◌*◌, ◌^◌, ◌≤◌, ◌<◌, ◌≡◌, refl, ◌∙◌, ◌⊎◌, inl, inr, List, [], ◌∷◌, ◌++◌, Bytes, length,
  ◌==◌, if◌then◌else◌, Bool-cases, arith,
}
use axon_cache.Ram.{Ram, load, view}
use axon_cache.Ram.Laws.{Agree, load-Agree, view-Agree}
use axon_cache.Chain.{head_size}

-- One record, as it was put.
pub record Chained : Type 0 where
  pub key : Bytes
  pub type : ℕ
  pub value : Bytes

abbrev pub chained_size : Chained → ℕ
chained_size r = head_size + length r.key + length r.value

abbrev pub total_size : List Chained → ℕ
total_size [] = 0
total_size (r ∷ rs) = chained_size r + total_size rs

-- The record `r` stands at `a`, without its link, and fits its fields.
pub record StandsAt (m : Ram) (a : ℕ) (r : Chained) : Type 0 where
  pub type_bits : r.type < 2 ^ 8
  pub size_bits : length r.value < 2 ^ 24
  pub key_size : load 2 m (a + 8) ≡ length r.key
  pub word : load 4 m (a + 10) ≡ r.type * 2 ^ 24 + length r.value
  pub key : view m (a + head_size) (length r.key) ≡ r.key
  pub value : view m (a + head_size + length r.key) (length r.value) ≡ r.value

-- The record stays while its bytes behind the link do.
pub StandsAt-Agree :
    (m n : Ram) (a : ℕ) (r : Chained)
    → StandsAt m a r
    → Agree n m (a + 8) (a + chained_size r)
    → StandsAt n a r
StandsAt-Agree m n a r s same = record {
  type_bits = s.type_bits;
  size_bits = s.size_bits;
  key_size = load-Agree 2 n m (a + 8) (λ x lo hi. same x (omega arith) (omega arith)) ∙ s.key_size;
  word = load-Agree 4 n m (a + 10) (λ x lo hi. same x (omega arith) (omega arith)) ∙ s.word;
  key =
      view-Agree n m (a + head_size) (length r.key) (λ x lo hi. same x (omega arith) (omega arith))
      ∙ s.key;
  value =
      view-Agree n m (a + head_size + length r.key) (length r.value)
        (λ x lo hi. same x (omega arith) (omega arith))
      ∙ s.value;
}

module _ (bucket : Bytes → ℕ) where
  -- The first record of the bucket `s` among records that stand from `a` on, or 0.
  abbrev pub next_in : ℕ → ℕ → List Chained → ℕ
  next_in s a [] = 0
  next_in s a (r ∷ rs) = if bucket r.key == s then a else next_in s (a + chained_size r) rs

  -- The link at the end of the chain of `s` that comes from `from`, and the records on the way.
  abbrev pub last_in : ℕ → ℕ → ℕ → List Chained → ℕ
  last_in s from a [] = from
  last_in s from a (r ∷ rs) =
      last_in s (if bucket r.key == s then a else from) (a + chained_size r) rs

  abbrev pub count_in : ℕ → List Chained → ℕ
  count_in s [] = 0
  count_in s (r ∷ rs) = (if bucket r.key == s then 1 else 0) + count_in s rs

  -- The records stand from `a` on, each linked to the next one of its bucket.
  abbrev pub Linked : Ram → ℕ → List Chained → Type 0
  Linked m a [] = Unit {0}
  Linked m a (r ∷ rs) =
      StandsAt m a r
      × (load 8 m a ≡ next_in (bucket r.key) (a + chained_size r) rs)
      × Linked m (a + chained_size r) rs

  -- The end of the chain is the link it comes from, if no record follows, or a record among those
  -- that follow.
  pub last_in-cases :
      (s from a : ℕ) (rs : List Chained)
      → 1 ≤ a
      → ((last_in s from a rs ≡ from) × (next_in s a rs ≡ 0))
        ⊎ ((a ≤ last_in s from a rs)
            × (last_in s from a rs + head_size ≤ a + total_size rs)
            × (1 ≤ next_in s a rs))
  last_in-cases s from a [] pos = inl (refl, refl)
  last_in-cases s from a (r ∷ rs) pos = elim (Bool-cases (bucket r.key == s)) [
    | inl here ↦ rw here (elim (last_in-cases s a (a + chained_size r) rs (omega arith)) [
      | inl (stays, nil) ↦ inr (omega (arith, stays), omega (arith, stays), omega arith)
      | inr (lo, hi, more) ↦ inr (omega (arith, lo), omega (arith, hi), omega arith)
    ])
    | inr other ↦ rw other (elim (last_in-cases s from (a + chained_size r) rs (omega arith)) [
      | inl stays ↦ inl stays
      | inr (lo, hi, more) ↦ inr (omega (arith, lo), omega (arith, hi), more)
    ])
  ]

  -- A record at the end becomes the next one where there was nil.
  pub next_in-append :
      (s a : ℕ) (rs : List Chained) (r : Chained)
      → 1 ≤ a
      → next_in s a (rs ++ (r ∷ [])) ≡ (
          if next_in s a rs == 0
          then if bucket r.key == s then a + total_size rs else 0
          else next_in s a rs)
  next_in-append s a [] r pos = let end : a + 0 ≡ a = omega arith in rw end refl
  next_in-append s a (x ∷ rs) r pos = elim (Bool-cases (bucket x.key == s)) [
    | inl here ↦ rw here (ground arith)
    | inr other ↦
        let end : a + (chained_size x + total_size rs) ≡ a + chained_size x + total_size rs =
          omega arith in
        rw (other, end) (next_in-append s (a + chained_size x) rs r (omega arith))
  ]

  pub count_in-le : (s : ℕ) (rs : List Chained) → count_in s rs ≤ length rs
  count_in-le s [] = omega arith
  count_in-le s (r ∷ rs) = ground (arith, count_in-le s rs)

pub length-total_size : (rs : List Chained) → length rs ≤ total_size rs
length-total_size [] = omega arith
length-total_size (r ∷ rs) = omega (arith, length-total_size rs)
