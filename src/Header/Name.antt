-- ===== src/Header/Name.antt =====
-- The name in a cache file's header (src/axoncache/writer/detail/GenerateHeader.cpp).
use axon_cache.Prelude.{
  ℕ, zero, suc, ◌+◌, ◌-◌, ◌≤◌, ◌<◌, ◌≡◌, refl, ap, inl, inr, min, Bytes, [], ◌∷◌, ◌++◌, length,
  length-append, ok, ◌==◌, Bool-cases, if◌then◌else◌, arith,
}
use native.Mathlib.Decide.{dec_le}
use axon_cache.Header.{c_string, behind_first, print_name, name_loop}

length-c_string : (n : ℕ) (s : Bytes) → length (c_string n s) ≤ n
unfolding c_string
length-c_string zero s = omega arith
length-c_string (suc n) [] = omega arith
length-c_string (suc n) (c ∷ s) = elim (Bool-cases (c == 0)) [
  | inl e ↦ rw e (omega arith)
  | inr e ↦ rw e (omega (arith, length-c_string n s))
]

length-behind_first : (n : ℕ) (s : Bytes) → n ≤ length s → length (behind_first n s) + n ≡ length s
unfolding behind_first
length-behind_first zero s h = omega arith
length-behind_first (suc n) [] h = absurd (omega arith)
length-behind_first (suc n) (c ∷ s) h = omega (arith, length-behind_first n s (omega arith))

-- A limit beyond the string does not matter.
c_string-long : (n m : ℕ) (s : Bytes) → length s ≤ n → length s ≤ m → c_string n s ≡ c_string m s
unfolding c_string
c_string-long zero zero s p q = refl
c_string-long (suc n) zero [] p q = refl
c_string-long (suc n) zero (c ∷ s) p q = absurd (omega arith)
c_string-long zero (suc m) [] p q = refl
c_string-long zero (suc m) (c ∷ s) p q = absurd (omega arith)
c_string-long (suc n) (suc m) [] p q = refl
c_string-long (suc n) (suc m) (c ∷ s) p q =
    ap (λ (t : Bytes). if c == 0 then [] else c ∷ t)
      (c_string-long n m s (omega arith) (omega arith))

printed : (s : Bytes) → c_string (min (length s + 1) 32 - 1) s ≡ c_string 31 s
printed s = elim (dec_le (length s) 31) [
  | yes short ↦ c_string-long _ _ s (omega arith) short
  | no long ↦ ap (λ (n : ℕ). c_string n s) (omega arith)
]

name_loop-c_string :
    (k n : ℕ) (s rest : Bytes)
    → k < n
    → name_loop n (c_string k s ++ (0 ∷ rest)) ≡ ok (c_string k s)
unfolding name_loop c_string
name_loop-c_string k zero s rest h = absurd (omega arith)
name_loop-c_string zero (suc n) s rest h = refl
name_loop-c_string (suc k) (suc n) [] rest h = refl
name_loop-c_string (suc k) (suc n) (c ∷ s) rest h = elim (Bool-cases (c == 0)) [
  | inl e ↦ rw e
  | inr e ↦ rw (e, name_loop-c_string k n s rest (omega arith), e)
]

pub length-print_name : (s buffer : Bytes) → length buffer ≡ 32 → length (print_name s buffer) ≡ 32
unfolding print_name
length-print_name s buffer h = rw (printed s) (
    omega (
      arith,
      length-c_string 31 s,
      length-append (c_string 31 s) (0 ∷ behind_first (length (c_string 31 s) + 1) buffer),
      length-behind_first (length (c_string 31 s) + 1) buffer (omega (arith, length-c_string 31 s)),
    ))

pub name_loop-print_name :
    (s buffer : Bytes) → name_loop 32 (print_name s buffer) ≡ ok (c_string 31 s)
unfolding print_name
name_loop-print_name s buffer = rw (printed s) (name_loop-c_string 31 32 s _ (omega arith))
