-- ===== src/Bits/Step.antt =====
-- One binary digit of `&` and `|`: the native operations are recursions on digits with fuel, and
-- the fuel is dropped here.
use Prim.Native.Nat.{digits, bit_and-bitwise, bit_or-bitwise}
use axon_cache.Prelude.{
  ℕ, zero, suc, ◌+◌, ◌*◌, ◌/◌, ◌%◌, ◌≤◌, ◌≡◌, refl, max, min, bit_and, bit_or, arith,
}

-- Any fuel that is at least the left operand gives the same digits.
enough_digits :
    (z : ℕ → ℕ) (f : ℕ → ℕ → ℕ) (n m a : ℕ)
    → a ≤ n
    → a ≤ m
    → (b : ℕ) → digits z f m a b ≡ digits z f n a b
enough_digits z f zero zero zero p q b = refl
enough_digits z f zero zero (suc a) p q b = absurd (omega arith)
enough_digits z f zero (suc m) zero p q b = refl
enough_digits z f zero (suc m) (suc a) p q b = absurd (omega arith)
enough_digits z f (suc n) zero zero p q b = refl
enough_digits z f (suc n) zero (suc a) p q b = absurd (omega arith)
enough_digits z f (suc n) (suc m) zero p q b = refl
enough_digits z f (suc n) (suc m) (suc a) p q b =
    let rest = enough_digits z f n m (suc a / 2) (omega arith) (omega arith) (b / 2) in
    omega (arith, rest)

pub bit_and_step : (x y : ℕ) → bit_and x y ≡ min (x % 2) (y % 2) + 2 * bit_and (x / 2) (y / 2)
bit_and_step zero y = omega (arith, bit_and-bitwise 0 y, bit_and-bitwise (0 / 2) (y / 2))
bit_and_step (suc x) y = omega (
  arith,
  enough_digits (λ _. 0) min x (suc x / 2) (suc x / 2) (omega arith) (omega arith) (y / 2),
  bit_and-bitwise (suc x / 2) (y / 2),
  bit_and-bitwise (suc x) y,
)

pub bit_or_step : (x y : ℕ) → bit_or x y ≡ max (x % 2) (y % 2) + 2 * bit_or (x / 2) (y / 2)
bit_or_step zero y = omega (arith, bit_or-bitwise 0 y, bit_or-bitwise (0 / 2) (y / 2))
bit_or_step (suc x) y = omega (
  arith,
  enough_digits (λ d. d) max x (suc x / 2) (suc x / 2) (omega arith) (omega arith) (y / 2),
  bit_or-bitwise (suc x / 2) (y / 2),
  bit_or-bitwise (suc x) y,
)

and_zero_below : (n a : ℕ) → a ≤ n → bit_and a 0 ≡ 0
and_zero_below n zero h = refl
and_zero_below zero (suc a) h = absurd (omega arith)
and_zero_below (suc n) (suc a) h =
    omega (arith, bit_and_step (suc a) 0, and_zero_below n (suc a / 2) (omega arith))

pub bit_and-zero : (a : ℕ) → bit_and a 0 ≡ 0
bit_and-zero a = and_zero_below a a (omega arith)

or_zero_below : (n a : ℕ) → a ≤ n → bit_or a 0 ≡ a
or_zero_below n zero h = refl
or_zero_below zero (suc a) h = absurd (omega arith)
or_zero_below (suc n) (suc a) h =
    omega (arith, bit_or_step (suc a) 0, or_zero_below n (suc a / 2) (omega arith))

pub bit_or-zero : (a : ℕ) → bit_or a 0 ≡ a
bit_or-zero a = or_zero_below a a (omega arith)

pub zero-bit_and : (a : ℕ) → bit_and 0 a ≡ 0
zero-bit_and a = bit_and-bitwise 0 a
