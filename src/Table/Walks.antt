-- ===== src/Table/Walks.antt =====
-- A search ends as long as one slot is empty, and always at the same slot.
use axon_cache.Prelude.{
  ℕ, zero, suc, ◌+◌, ◌-◌, ◌<◌, ◌≡◌, ◌≢◌, refl, ap, ◌∙◌, inl, inr, none, leb, if◌then◌else◌, Bytes,
  bytes_eq, bytes_eq-eq, eq-bytes_eq, Bool-cases, Option-cases, arith,
}
use axon_cache.Table.{Entry, Table, next, count, Passes, Walk, here, past, Stop, hit, miss, Search}

-- Fewer entries than slots leave an empty one.
pub empty_slot : (n : ℕ) (t : Table) → count n t < n → (z : ℕ) × (z < n) × (t z ≡ none)
empty_slot zero t h = absurd (omega arith)
empty_slot (suc n) t h = elim (Option-cases (t n)) [
  | inl e ↦ (n, omega arith, e)
  | inr (a, e) ↦ let (z, lt, free) = empty_slot n t (ground arith) in (z, omega arith, free)
]

-- How many steps ahead of `s` the slot `z` is.
abbrev pub ahead : ℕ → ℕ → ℕ → ℕ
ahead n s z = if leb s z then z - s else z + n - s

pub ahead-next :
    (n s z : ℕ) → s < n → z < n → s ≢ z → (ahead n (next n s) z + 1 ≡ ahead n s z) × (next n s < n)
ahead-next n s z h k ne = ground arith

pub search :
    (n : ℕ) (t : Table) (k : Bytes) (z : ℕ)
    → z < n
    → t z ≡ none
    → (fuel s : ℕ) → s < n
    → ahead n s z < fuel
    → Search n t k s fuel
search n t k z hz free zero s hs h = absurd (omega arith)
search n t k z hz free (suc fuel) s hs h = elim (Option-cases (t s)) [
  | inl e ↦ record {
    steps = 0;
    target = s;
    short = omega arith;
    inside = hs;
    walk = here;
    stop = miss e;
  }
  | inr (a, e) ↦ elim (Bool-cases (bytes_eq a.key k)) [
    | inl same ↦ record {
      steps = 0;
      target = s;
      short = omega arith;
      inside = hs;
      walk = here;
      stop = hit a e (bytes_eq-eq a.key k same);
    }
    | inr other ↦
        let ne : s ≢ z = λ q. cc (ap t q) in
        let step = ahead-next n s z hs hz ne in
        let rest = search n t k z hz free fuel (next n s) step.1 (omega arith) in
        record {
          steps = suc rest.steps;
          target = rest.target;
          short = omega (arith, rest.short);
          inside = rest.inside;
          walk = past (record { entry = a; taken = e; other = other }) rest.walk;
          stop = rest.stop;
        }
  ]
]

-- A slot where a walk stops is not passed.
not_passed : (t : Table) (k : Bytes) (s : ℕ) → Passes t k s → Stop t k s → ⊥
not_passed t k s p (hit e at same) =
    let one : p.entry ≡ e = cc (p.taken) in
    cc (p.other, eq-bytes_eq p.entry.key k (ap (λ (x : Entry). x.key) one ∙ same))
not_passed t k s p (miss free) = cc (p.taken)

-- Two walks for one key from one slot that both stop, stop at the same slot.
pub Walk-unique :
    {n : ℕ} {t : Table} {k : Bytes} {s d i c j : ℕ}
    → Walk n t k s d i
    → Stop t k i
    → Walk n t k s c j
    → Stop t k j
    → i ≡ j
Walk-unique here p here q = refl
Walk-unique {t = t} {k = k} {s = s} here p (past g w) q = absurd (not_passed t k s g p)
Walk-unique {t = t} {k = k} {s = s} (past g w) p here q = absurd (not_passed t k s g q)
Walk-unique (past g w) p (past f v) q = Walk-unique w p v q
