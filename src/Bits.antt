-- ===== src/Bits.antt =====
-- `&` and `|` with the masks of the key space, as arithmetic: a slot packs the high bits of a hash
-- code over an offset (include/axoncache/cache/probe/LinearProbe.h).
pub mod Step
use axon_cache.Prelude.{
  ℕ, zero, suc, ◌+◌, ◌-◌, ◌*◌, ◌/◌, ◌%◌, ◌^◌, ◌≤◌, ◌<◌, ◌≡◌, refl, sym, ap, ◌∙◌, bit_and, bit_or,
  arith,
}
use native.Mathlib.Nat.{pow-suc, one-le-pow}
use Step.{bit_and_step, bit_or_step, bit_and-zero, bit_or-zero, zero-bit_and}

-- One more low bit in a product with a power of two.
double : (x k : ℕ) → x * 2 ^ suc k ≡ 2 * (x * 2 ^ k)
double x k = omega (arith, ap (λ (t : ℕ). x * t) (pow-suc 2 k))

-- `&` with a mask whose low `k` bits are clear drops the low field.
pub bit_and_high :
    (k q r m : ℕ) → r < 2 ^ k → bit_and (q * 2 ^ k + r) (m * 2 ^ k) ≡ bit_and q m * 2 ^ k
bit_and_high zero q r m h = ground arith
bit_and_high (suc k) q r m h = ground (
  arith,
  bit_and_step (q * 2 ^ suc k + r) (m * 2 ^ suc k),
  double q k,
  double m k,
  double (bit_and q m) k,
  pow-suc 2 k,
  bit_and_high k q (r / 2) m (omega arith),
)

-- `&` with the mask of the low `k` bits keeps the low field.
pub bit_and_low : (k q r : ℕ) → r < 2 ^ k → bit_and (q * 2 ^ k + r) (2 ^ k - 1) ≡ r
bit_and_low zero q r h = rw bit_and-zero (omega arith)
bit_and_low (suc k) q r h = ground (
  arith,
  bit_and_step (q * 2 ^ suc k + r) (2 ^ suc k - 1),
  double q k,
  pow-suc 2 k,
  one-le-pow k 2,
  bit_and_low k q (r / 2) (omega arith),
)

-- `|` of a high and a low field is their sum.
pub bit_or_join : (k q r : ℕ) → r < 2 ^ k → bit_or (q * 2 ^ k) r ≡ q * 2 ^ k + r
bit_or_join zero q r h = ground (arith, bit_or-zero q)
bit_or_join (suc k) q r h = ground (
  arith,
  bit_or_step (q * 2 ^ suc k) r,
  double q k,
  pow-suc 2 k,
  bit_or_join k q (r / 2) (omega arith),
)

-- A power of two split at a smaller one.
pub pow-split : (a b c : ℕ) → a + b ≡ c → 2 ^ c ≡ 2 ^ a * 2 ^ b
pow-split zero b c e = let e' : c ≡ b = omega arith in rw e' (omega arith)
pow-split (suc a) b zero e = absurd (omega arith)
pow-split (suc a) b (suc c) e = omega (
  arith,
  pow-suc 2 a,
  pow-suc 2 c,
  ap (λ (t : ℕ). 2 * t) (pow-split a b c (omega arith)),
  ap (λ (t : ℕ). t * 2 ^ b) (pow-suc 2 a),
)

-- Masking twice is masking once.
idem_below : (n a m : ℕ) → a ≤ n → bit_and (bit_and a m) m ≡ bit_and a m
idem_below n zero m h = rw zero-bit_and (zero-bit_and m)
idem_below zero (suc a) m h = absurd (omega arith)
idem_below (suc n) (suc a) m h =
    let half = bit_and (suc a / 2) (m / 2) in
    let halved : bit_and (suc a) m / 2 ≡ half = omega (arith, bit_and_step (suc a) m) in
    omega (
      arith,
      bit_and_step (suc a) m,
      bit_and_step (bit_and (suc a) m) m,
      ap (λ (t : ℕ). bit_and t (m / 2)) halved,
      idem_below n (suc a / 2) (m / 2) (omega arith),
    )

pub bit_and_idem : (a m : ℕ) → bit_and (bit_and a m) m ≡ bit_and a m
bit_and_idem a m = idem_below a a m (omega arith)

le_below : (n a m : ℕ) → a ≤ n → bit_and a m ≤ a
le_below n zero m h = omega (arith, zero-bit_and m)
le_below zero (suc a) m h = absurd (omega arith)
le_below (suc n) (suc a) m h =
    omega (arith, bit_and_step (suc a) m, le_below n (suc a / 2) (m / 2) (omega arith))

pub bit_and-le : (a m : ℕ) → bit_and a m ≤ a
bit_and-le a m = le_below a a m (omega arith)
