-- ===== src/Chain/Append.antt =====
-- Linking a new record to the end of its chain keeps every chain
-- (src/axoncache/cache/value/ChainedValue.cpp, add).
use axon_cache.Prelude.{
  ℕ, ◌+◌, ◌≤◌, ◌<◌, ◌≡◌, refl, sym, ap, ◌∙◌, ◌⊎◌, inl, inr, List, [], ◌∷◌, ◌++◌, Bytes, ◌==◌,
  Bool-cases, false, arith, ==_iff, ==_refl,
}
use axon_cache.Ram.{Ram, load}
use axon_cache.Ram.Laws.{Outside, load-Agree}
use axon_cache.Chain.Layout.{
  Chained, chained_size, total_size, StandsAt, StandsAt-Agree, next_in, last_in, last_in-cases,
  next_in-append, Linked,
}

-- The memory `n` is `m` with the record `r` at `end`, and the link at `last` set to it.
pub record Appends (m n : Ram) (r : Chained) (last end : ℕ) : Type 0 where
  pub kept : (x : ℕ) → x < end → Outside x last (last + 8) → n x ≡ m x
  pub linked : load 8 n last ≡ end
  pub stands : StandsAt n end r
  pub no_next : load 8 n end ≡ 0

module _ (bucket : Bytes → ℕ) (m n : Ram) (r : Chained) (last end : ℕ)
    (v : Appends m n r last end) where
  abbrev home : ℕ
  home = bucket r.key

  -- A link elsewhere is kept.
  link_kept :
      (from : ℕ)
      → from + 8 ≤ end
      → (from + 8 ≤ last) ⊎ (last + 8 ≤ from)
      → load 8 n from ≡ load 8 m from
  link_kept from inside apart =
      load-Agree 8 n m from (λ x lo hi. v.kept x (omega arith) (ground arith))

  -- A link of another bucket leads where it did.
  pub other_link :
      (t from a : ℕ) (rs : List Chained)
      → load 8 m from ≡ next_in bucket t a rs
      → 1 ≤ a
      → from + 8 ≤ end
      → (home == t) ≡ false
      → (from + 8 ≤ last) ⊎ (last + 8 ≤ from)
      → load 8 n from ≡ next_in bucket t a (rs ++ (r ∷ []))
  other_link t from a rs link pos inside differ apart =
      link_kept from inside apart
      ∙ link
      ∙ rw (next_in-append bucket t a rs r pos, differ) (ground arith)

  -- A link of the record's bucket leads to the record if it is the last one.
  pub home_link :
      (from a : ℕ) (rs : List Chained)
      → load 8 m from ≡ next_in bucket home a rs
      → 1 ≤ a
      → from + 8 ≤ a
      → a + total_size rs ≡ end
      → last ≡ last_in bucket home from a rs
      → load 8 n from ≡ next_in bucket home a (rs ++ (r ∷ []))
  home_link from a rs link pos before whole at = elim (last_in-cases bucket home from a rs pos) [
    | inl (stays, ends) ↦
        ap (load 8 n) (sym (at ∙ stays))
        ∙ v.linked
        ∙ sym whole
        ∙ sym (rw (next_in-append bucket home a rs r pos, ends, ==_refl home) refl)
    | inr (lo, hi, more) ↦
        link_kept from (omega arith) (inl (omega (arith, at, lo)))
        ∙ link
        ∙ sym (rw (next_in-append bucket home a rs r pos) (ground arith))
  ]

  stands_kept :
      (a : ℕ) (x : Chained)
      → StandsAt m a x
      → a + chained_size x ≤ end
      → (last ≤ a) ⊎ (a + chained_size x ≤ last)
      → StandsAt n a x
  stands_kept a x stands inside apart =
      StandsAt-Agree m n a x stands (λ y lo hi. v.kept y (omega arith) (ground arith))

  -- The end of the chain lies at or before a record, or behind it.
  end_apart :
      (from a : ℕ) (size : ℕ) (rs : List Chained)
      → 1 ≤ a
      → last ≡ last_in bucket home from (a + size) rs
      → (last ≡ from) ⊎ (a + size ≤ last)
  end_apart from a size rs pos at =
      elim (last_in-cases bucket home from (a + size) rs (omega arith)) [
        | inl (stays, ends) ↦ inl (at ∙ stays)
        | inr (lo, hi, more) ↦ inr (omega (arith, at, lo))
      ]

  -- The records stay linked, with the new one behind them.
  pub append-Linked :
      (from a : ℕ) (rs : List Chained)
      → Linked bucket m a rs
      → 1 ≤ a
      → from + 8 ≤ a
      → a + total_size rs ≡ end
      → last ≡ last_in bucket home from a rs
      → Linked bucket n a (rs ++ (r ∷ []))
  append-Linked from a [] linked pos before whole at =
      let here : a ≡ end = omega arith in rw here (v.stands, v.no_next, tt)
  append-Linked from a (x ∷ rs) (stands, next, linked) pos before whole at =
      elim (Bool-cases (bucket x.key == home)) [
        | inl same ↦
            let one : bucket x.key ≡ home = (==_iff _ home).0 same in
            let at' : last ≡ last_in bucket home a (a + chained_size x) rs = rw same at at in
            (
              stands_kept a x stands (omega arith)
                  (elim (end_apart a a (chained_size x) rs pos at') [
                    | inl here ↦ inl (omega arith)
                    | inr behind ↦ inr behind
                  ]),
              rw one (
                  home_link a (a + chained_size x) rs (rw one at next) (omega arith) (omega arith)
                    (omega arith) at'),
              append-Linked a (a + chained_size x) rs linked (omega arith) (omega arith)
                  (omega arith) at',
            )
        | inr other ↦
            let at' : last ≡ last_in bucket home from (a + chained_size x) rs = rw other at at in
            let apart : (last + 8 ≤ a) ⊎ (a + chained_size x ≤ last) =
              elim (end_apart from a (chained_size x) rs pos at') [
                | inl here ↦ inl (omega arith)
                | inr behind ↦ inr behind
              ] in
            (
              stands_kept a x stands (omega arith) (ground arith),
              other_link (bucket x.key) a (a + chained_size x) rs next (omega arith) (omega arith)
                  (ground arith) (ground arith),
              append-Linked from (a + chained_size x) rs linked (omega arith) (omega arith)
                  (omega arith) at',
            )
      ]
