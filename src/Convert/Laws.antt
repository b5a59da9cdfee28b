-- ===== src/Convert/Laws.antt =====
-- Round trips of the conversions.
use axon_cache.Prelude.{
  ℕ, zero, suc, ◌*◌, ◌/◌, ◌%◌, ◌^◌, ◌≤◌, ◌<◌, ◌≡◌, refl, sym, ap, ◌∙◌, List, [], ◌∷◌, ◌++◌, Bytes,
  length, length-append, All, arith, Result, ok, undefined, ◌>>=◌,
}
use mathlib.Core.List.{append-nil, append_assoc}
use axon_cache.Ram.{le}
use axon_cache.Ram.Encoding.{length-le, from_le-le}
use axon_cache.Convert.{
  null_terminated, drop_last, trim_extra_null_terminator, elements_to_string, string_list_to_string,
  split_bytes, elements_from_string, string_list_from_string, type_to_string, type_from_string,
  floats_to_string, floats_of, floats_from_string,
}
use axon_cache.Domain.{vector_length_limit, vector_element_limit}

drop_last-append : (s : Bytes) (b : ℕ) → drop_last (s ++ (b ∷ [])) ≡ s
unfolding drop_last
drop_last-append [] b = refl
drop_last-append (x ∷ []) b = refl
drop_last-append (x ∷ (y ∷ s)) b = ap (λ (t : Bytes). x ∷ t) (drop_last-append (y ∷ s) b)

-- A string that was null-terminated for storage is read back whole, empty or not.
pub trim_extra_null_terminator-null_terminated :
    (s : Bytes) → trim_extra_null_terminator (null_terminated s) ≡ ok s
unfolding trim_extra_null_terminator null_terminated
trim_extra_null_terminator-null_terminated [] = refl
trim_extra_null_terminator-null_terminated (x ∷ s) = ap ok (drop_last-append (x ∷ s) 0)

pub trim_extra_null_terminator-nil : trim_extra_null_terminator [] ≡ undefined
unfolding trim_extra_null_terminator
trim_extra_null_terminator-nil = refl

pub split_bytes-append :
    (xs ys : Bytes) (n : ℕ) → n ≡ length xs → split_bytes n (xs ++ ys) ≡ ok (xs, ys)
unfolding split_bytes
split_bytes-append [] ys n e = rw e
split_bytes-append (x ∷ xs) ys zero e = absurd (omega arith)
split_bytes-append (x ∷ xs) ys (suc n) e = rw (split_bytes-append xs ys n (omega arith))

-- Elements that fit their length fields.
abbrev pub AreShort : List Bytes → Type 0
AreShort = All (λ s. length s ≤ vector_element_limit)

element-append :
    (len s r rest : Bytes) → (len ++ (s ++ (0 ∷ r))) ++ rest ≡ len ++ (s ++ (0 ∷ (r ++ rest)))
element-append len s r rest = rw (append_assoc len (s ++ (0 ∷ r)) rest, append_assoc s (0 ∷ r) rest)

short_lt : {n : ℕ} → n ≤ vector_element_limit → n < 256 ^ 2
short_lt h = omega arith

long_lt : {n : ℕ} → n ≤ vector_length_limit → n < 256 ^ 2
long_lt h = omega arith

elements_from-step :
    (s rest : Bytes) (n : ℕ) (input : List Bytes)
    → length s ≤ vector_element_limit
    → elements_from_string n rest ≡ ok input
    → elements_from_string (suc n) (le 2 (length s) ++ (s ++ (0 ∷ rest))) ≡ ok (s ∷ input)
unfolding elements_from_string split_bytes
elements_from-step s rest n input h from = rw (
  split_bytes-append (le 2 (length s)) (s ++ (0 ∷ rest)) 2 (sym (length-le 2 (length s))),
  from_le-le 2 (length s) (short_lt h),
  split_bytes-append s (0 ∷ rest) (length s) refl,
  from,
)

pub elements_round :
    (input : List Bytes)
    → AreShort input
    → (r : Bytes) × (elements_to_string input ≡ ok r)
      × ((rest : Bytes) → elements_from_string (length input) (r ++ rest) ≡ ok input)
unfolding elements_to_string elements_from_string
elements_round [] h = ([], refl, λ rest. refl)
elements_round (s ∷ input) (hs, h) =
    let (r, to, from) = elements_round input h in
    (
      le 2 (length s) ++ (s ++ (0 ∷ r)),
      ground (arith, to),
      λ rest.
          ap (elements_from_string (suc (length input))) (element-append (le 2 (length s)) s r rest)
          ∙ elements_from-step s (r ++ rest) (length input) input hs (from rest),
    )

pub string_list_from-step :
    (input : List Bytes) (r : Bytes)
    → length input ≤ vector_length_limit
    → elements_from_string (length input) (r ++ []) ≡ ok input
    → string_list_from_string (le 2 (length input) ++ r) ≡ ok input
unfolding string_list_from_string
string_list_from-step input r few from =
    rw
      (
        split_bytes-append (le 2 (length input)) r 2 (sym (length-le 2 (length input))),
        from_le-le 2 (length input) (long_lt few),
        sym (append-nil r),
      )
      from

pub string_list_to-step :
    (input : List Bytes) (r : Bytes)
    → length input ≤ vector_length_limit
    → elements_to_string input ≡ ok r
    → string_list_to_string input ≡ ok (le 2 (length input) ++ r)
unfolding string_list_to_string
string_list_to-step input r few to = ground (arith, to)

-- A list of at most 65535 strings of at most 65535 bytes each is encoded, and decoding the encoded
-- bytes gives the list back, whatever bytes its strings hold.
pub string_list_from_string-string_list_to_string :
    (input : List Bytes)
    → length input ≤ vector_length_limit
    → AreShort input
    → (string_list_to_string input >>= string_list_from_string) ≡ ok input
string_list_from_string-string_list_to_string input few short =
    let (r, to, from) = elements_round input short in
    ap (λ (x : Result Bytes). x >>= string_list_from_string) (string_list_to-step input r few to)
    ∙ string_list_from-step input r few (from [])

-- The bit pattern of a value that fits `w` bytes is read back from its encoding.
pub type_from_string-type_to_string :
    (w v : ℕ) → v < 256 ^ w → type_from_string w (type_to_string w v) ≡ v
unfolding type_from_string type_to_string
type_from_string-type_to_string w v h = ground (arith, length-le w v, from_le-le w v h)

-- Patterns of four bytes.
abbrev pub AreFloats : List ℕ → Type 0
AreFloats = All (λ f. f < 256 ^ 4)

pub length-floats_to_string : (fs : List ℕ) → length (floats_to_string fs) ≡ length fs * 4
unfolding floats_to_string
length-floats_to_string [] = refl
length-floats_to_string (f ∷ fs) =
    omega (
      arith,
      length-append (le 4 f) (floats_to_string fs),
      length-le 4 f,
      length-floats_to_string fs,
    )

floats_of-step :
    (f n : ℕ) (rest : Bytes)
    → f < 256 ^ 4
    → floats_of (suc n) (le 4 f ++ rest) ≡ f ∷ floats_of n rest
unfolding floats_of
floats_of-step f n rest h =
    rw (split_bytes-append (le 4 f) rest 4 (sym (length-le 4 f)), from_le-le 4 f h)

floats_of-floats_to_string :
    (fs : List ℕ) → AreFloats fs → floats_of (length fs) (floats_to_string fs) ≡ fs
unfolding floats_of floats_to_string
floats_of-floats_to_string [] h = refl
floats_of-floats_to_string (f ∷ fs) (hf, h) =
    floats_of-step f (length fs) (floats_to_string fs) hf
    ∙ ap (λ (t : List ℕ). f ∷ t) (floats_of-floats_to_string fs h)

-- A vector of floats of any length is read back from its encoding.
pub floats_from_string-floats_to_string :
    (fs : List ℕ) → AreFloats fs → floats_from_string (floats_to_string fs) ≡ fs
unfolding floats_from_string
floats_from_string-floats_to_string fs h =
    let size = length-floats_to_string fs in
    let whole : length (floats_to_string fs) % 4 ≡ 0 = omega arith in
    let count : length (floats_to_string fs) / 4 ≡ length fs = omega arith in
    ground (arith, whole, count, floats_of-floats_to_string fs h)
