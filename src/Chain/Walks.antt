-- ===== src/Chain/Walks.antt =====
-- The walks along a chain (src/axoncache/cache/value/ChainedValue.cpp): both loops end, the one of
-- `add` at the last record of the bucket, the one of `get` and `contains` at the first record with the
-- key.
use axon_cache.Prelude.{
  ℕ, zero, suc, ◌+◌, ◌^◌, ◌≤◌, ◌<◌, ◌≡◌, refl, sym, ap, ◌∙◌, inl, inr, Option, none, some, List, [],
  ◌∷◌, Bytes, length, bytes_eq, bytes_eq-eq, ◌==◌, if◌then◌else◌, Bool-cases, true, false, arith,
  ==_iff, ==_refl, ok, u32,
}
use native.Mathlib.Decide.{ℕ_discrete}
use axon_cache.Ram.{Ram, load, view}
use axon_cache.Ram.Laws.{memcmp_eq-view}
use axon_cache.Probe.Holds.{bytes_eq-length}
use axon_cache.Chain.{head_size, end_of_chain, find_in_chain, has_key}
use axon_cache.Chain.Layout.{
  Chained, chained_size, total_size, StandsAt, next_in, last_in, count_in, Linked,
}

-- The comparison with a record that stands there is that of the keys.
has_key-bytes_eq :
    (m : Ram) (a : ℕ) (r : Chained) (key : Bytes)
    → StandsAt m a r
    → has_key m a key ≡ bytes_eq r.key key
unfolding has_key
has_key-bytes_eq m a r key s = elim (ℕ_discrete (length r.key) (length key)) [
  | yes same ↦
      let shown = memcmp_eq-view m (a + head_size) key in
      let read : view m (a + head_size) (length key) ≡ r.key =
        ap (view m (a + head_size)) (sym same) ∙ s.key in
      let one : (load 2 m (a + 8) == length key) ≡ true = ground (arith, s.key_size) in
      rw (one, shown, read) refl
  | no differ ↦
      let other : (load 2 m (a + 8) == length key) ≡ false = ground (arith, s.key_size) in
      rw (other, bytes_eq-length r.key key differ) refl
]

-- The first record with the key, and where it stands among records from `a` on.
abbrev pub first_of : Bytes → List Chained → Option Chained
first_of key [] = none
first_of key (r ∷ rs) = if bytes_eq r.key key then some r else first_of key rs

abbrev pub address_of : Bytes → ℕ → List Chained → Option ℕ
address_of key a [] = none
address_of key a (r ∷ rs) =
    if bytes_eq r.key key then some a else address_of key (a + chained_size r) rs

module _ (bucket : Bytes → ℕ) (m : Ram) (size : ℕ) where
  end_of_chain-step :
      (fuel from next n : ℕ)
      → load 8 m from ≡ next
      → 1 ≤ next
      → from + 8 ≤ size
      → end_of_chain (suc fuel) m size from n ≡ end_of_chain fuel m size next (u32 (n + 1))
  unfolding end_of_chain
  end_of_chain-step fuel from next n link more inside = ground (arith, link)

  -- The walk of `add` ends at the end of the chain, past every record of the bucket.
  pub end_of_chain-last_in :
      (fuel s from a : ℕ) (rs : List Chained) (n : ℕ)
      → load 8 m from ≡ next_in bucket s a rs
      → Linked bucket m a rs
      → 1 ≤ a
      → a + total_size rs ≤ size
      → from + 8 ≤ size
      → length rs < fuel
      → n + length rs < 2 ^ 32
      → end_of_chain fuel m size from n ≡ ok (last_in bucket s from a rs, n + count_in bucket s rs)
  end_of_chain-last_in zero s from a rs n link linked pos inside from_inside enough few =
      absurd (omega arith)
  end_of_chain-last_in (suc fuel) s from a [] n link linked pos inside from_inside enough few =
      unfold end_of_chain in ground (arith, link)
  end_of_chain-last_in (suc fuel) s from a (r ∷ rs) n link (stands, next, linked) pos inside
        from_inside enough few =
      elim (Bool-cases (bucket r.key == s)) [
        | inl here ↦
            let same : bucket r.key ≡ s = (==_iff _ s).0 here in
            let one : u32 (n + 1) ≡ n + 1 = omega arith in
            let to_here : load 8 m from ≡ a = rw here at link in
            let shift : n + 1 + count_in bucket s rs ≡ n + (1 + count_in bucket s rs) =
              omega arith in
            end_of_chain-step fuel from a n to_here pos from_inside
            ∙ ap (end_of_chain fuel m size a) one
            ∙ end_of_chain-last_in fuel s a (a + chained_size r) rs (n + 1) (rw same at next) linked
                (omega arith) (omega arith) (omega arith) (omega arith) (omega arith)
            ∙ rw here (ap (λ (k : ℕ). ok (last_in bucket s a (a + chained_size r) rs, k)) shift)
        | inr other ↦
            let skip : n + count_in bucket s rs ≡ n + (0 + count_in bucket s rs) = omega arith in
            end_of_chain-last_in (suc fuel) s from (a + chained_size r) rs n (rw other at link)
              linked (omega arith) (omega arith) from_inside (omega arith) (omega arith)
            ∙ rw other (ap (λ (k : ℕ). ok (last_in bucket s from (a + chained_size r) rs, k)) skip)
      ]

  find_in_chain-step :
      (fuel a : ℕ) (r : Chained) (key : Bytes)
      → StandsAt m a r
      → 1 ≤ a
      → a + 10 ≤ size
      → find_in_chain (suc fuel) m size a key
        ≡ (if bytes_eq r.key key then ok (some a) else find_in_chain fuel m size (load 8 m a) key)
  unfolding find_in_chain
  find_in_chain-step fuel a r key s pos inside = ground (arith, has_key-bytes_eq m a r key s)

  -- The walk of `get` and `contains` ends at the first record with the key.
  pub find_in_chain-address_of :
      (fuel : ℕ) (key : Bytes) (a : ℕ) (rs : List Chained)
      → Linked bucket m a rs
      → 1 ≤ a
      → a + total_size rs ≤ size
      → length rs < fuel
      → find_in_chain fuel m size (next_in bucket (bucket key) a rs) key ≡ ok (address_of key a rs)
  find_in_chain-address_of zero key a rs linked pos inside enough = absurd (omega arith)
  find_in_chain-address_of (suc fuel) key a [] linked pos inside enough =
      unfold find_in_chain in refl
  find_in_chain-address_of (suc fuel) key a (r ∷ rs) (stands, next, linked) pos inside enough =
      elim (Bool-cases (bytes_eq r.key key)) [
        | inl same ↦
            let home : (bucket r.key == bucket key) ≡ true =
              rw (bytes_eq-eq r.key key same) (==_refl (bucket key)) in
            rw home (find_in_chain-step fuel a r key stands pos (omega arith) ∙ rw same refl)
        | inr other ↦ elim (Bool-cases (bucket r.key == bucket key)) [
          | inl here ↦
              let home : bucket r.key ≡ bucket key = (==_iff _ (bucket key)).0 here in
              let onward : load 8 m a ≡ next_in bucket (bucket key) (a + chained_size r) rs =
                rw home at next in
              rw (here, other)
                (find_in_chain-step fuel a r key stands pos (omega arith)
                  ∙ rw (other, onward)
                      (find_in_chain-address_of fuel key (a + chained_size r) rs linked
                        (omega arith) (omega arith) (omega arith)))
          | inr away ↦
              rw (away, other)
                (find_in_chain-address_of (suc fuel) key (a + chained_size r) rs linked
                  (omega arith) (omega arith) (omega arith))
        ]
      ]
