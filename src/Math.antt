-- ===== src/Math.antt =====
-- Sizes of hash tables (include/axoncache/Math.h).
use axon_cache.Prelude.{
  ℕ, zero, suc, ◌-◌, ◌*◌, ◌/◌, ◌^◌, ◌≤◌, ◌<◌, ◌≡◌, refl, inl, inr, leb, ◌==◌, if◌then◌else◌, Result,
  ok, undefined, Returns, Bool-cases, arith,
}
use native.Mathlib.Nat.{pow-suc, one-le-pow}
use axon_cache.Bits.{pow-split}
use native.Mathlib.Decide.{dec_le}

-- `64 - __builtin_clzl( x )`, at the width `w`: the number of digits of `x`
unfoldable pub bit_length : ℕ → ℕ → ℕ
bit_length zero x = 0
bit_length (suc w) x = if x == 0 then 0 else suc (bit_length w (x / 2))

-- `1UL << n`; a shift by 64 is undefined behaviour.
unfoldable pub shifted_one : ℕ → Result ℕ
shifted_one n = if leb 64 n then undefined else ok (2 ^ n)

-- `roundUpToPowerOfTwo`
unfoldable pub round_up_to_power_of_two : ℕ → Result ℕ
round_up_to_power_of_two number =
    if leb number 1 then ok 1 else shifted_one (bit_length 64 (number - 1))

bit_length-zero : (w : ℕ) → bit_length w 0 ≡ 0
unfolding bit_length
bit_length-zero zero = refl
bit_length-zero (suc w) = refl

-- A number below a power of two has no more digits than that.
bit_length-le : (w v x : ℕ) → x < 2 ^ v → bit_length w x ≤ v
unfolding bit_length
bit_length-le zero v x h = omega arith
bit_length-le (suc w) zero x h = ground arith
bit_length-le (suc w) (suc v) x h =
    ground (arith, bit_length-le w v (x / 2) (omega (arith, pow-suc 2 v)))

-- The digits of a number reach above it, and the last of them does not.
bit_length-bounds :
    (w x : ℕ) → x < 2 ^ w → (x < 2 ^ bit_length w x) × (1 ≤ x → 2 ^ bit_length w x ≤ 2 * x)
unfolding bit_length
bit_length-bounds zero x h = (omega arith, λ some. omega arith)
bit_length-bounds (suc w) x h = elim (Bool-cases (x == 0)) [
  | inl none ↦ rw none (ground arith, λ some. ground arith)
  | inr some ↦
      let (above, below) = bit_length-bounds w (x / 2) (omega (arith, pow-suc 2 w)) in
      let step = pow-suc 2 (bit_length w (x / 2)) in
      rw some (
        omega (arith, above, step),
        λ one. elim (dec_le 1 (x / 2)) [
          | yes more ↦ omega (arith, below more, step)
          | no last ↦
              let half : x / 2 ≡ 0 = omega arith in rw (half, bit_length-zero w) (omega arith)
        ],
      )
]

pow_mono : (a c : ℕ) → a ≤ c → 2 ^ a ≤ 2 ^ c
pow_mono a c h =
    let split = pow-split a (c - a) c (omega arith) in
    let some = one-le-pow (c - a) 2 (omega arith) in grind arith

long_enough : {x b : ℕ} → x < 2 ^ b → 2 ^ 63 ≤ x → 64 ≤ b
long_enough {x} {b} above large = elim (dec_le 64 b) [
  | yes long ↦ long
  | no short ↦ absurd (omega (arith, pow_mono b 63 (omega arith)))
]

-- From 1 to 2^63, `roundUpToPowerOfTwo` returns the least power of two that is not smaller: it is below
-- twice the number. Beyond, the shift is undefined behaviour.
pub round_up_to_power_of_two-bounds :
    (n : ℕ)
    → 1 ≤ n
    → n < 2 ^ 64
    → (n ≤ 2 ^ 63
        → Returns
            (round_up_to_power_of_two n)
            λ r. ((k : ℕ) × (k ≤ 63) × (r ≡ 2 ^ k)) × (n ≤ r) × (r < 2 * n))
      × (2 ^ 63 < n → round_up_to_power_of_two n ≡ undefined)
unfolding round_up_to_power_of_two
round_up_to_power_of_two-bounds n some small =
    let (above, below) = bit_length-bounds 64 (n - 1) (omega arith) in
    (
      λ fits. elim (dec_le n 1) [
        | yes one ↦
            let same : n ≡ 1 = omega arith in
            rw same (1, refl, ((0, omega arith, refl), omega arith, omega arith))
        | no more ↦
            let short = bit_length-le 64 63 (n - 1) (omega arith) in
            (
              2 ^ bit_length 64 (n - 1),
              unfold shifted_one in ground arith,
              (
                (bit_length 64 (n - 1), short, refl),
                omega (arith, above),
                omega (arith, below (omega arith)),
              ),
            )
      ],
      λ large.
          let long : 64 ≤ bit_length 64 (n - 1) = long_enough above (omega arith) in
          unfold shifted_one in ground arith,
    )
