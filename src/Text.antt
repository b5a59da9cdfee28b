-- ===== src/Text.antt =====
-- Text helpers of include/axoncache/common/StringUtils.h over the bytes of a view. An `int64_t` is
-- its two's complement pattern.
pub mod Laws
use axon_cache.Prelude.{
  ℕ, ◌+◌, ◌-◌, ◌*◌, ◌^◌, Bool, true, false, List, [], ◌∷◌, ◌++◌, map, Bytes, Option, none, some,
  leb, ltb, ◌==◌, bytes_eq, ◌&&◌, ◌||◌, if◌then◌else◌, u64,
}

-- `::tolower` in the "C" locale
abbrev pub tolower : ℕ → ℕ
tolower c = if leb b'A' c && leb c b'Z' then c + 32 else c

unfoldable pub lowercase : Bytes → Bytes
lowercase str = map tolower str

-- `toBool`
unfoldable pub to_bool : Bytes → Bool
unfolding lowercase
to_bool str =
    if bytes_eq (lowercase str) (b't' ∷ b'r' ∷ b'u' ∷ b'e' ∷ []) || bytes_eq str (b'1' ∷ [])
    then true
    else false

abbrev pub is_digit : ℕ → Bool
is_digit c = leb b'0' c && leb c b'9'

-- The number that the leading digits spell, after those that were read already.
unfoldable pub digits : ℕ → Bytes → ℕ
digits n [] = n
digits n (c ∷ rest) = if is_digit c then digits (10 * n + (c - b'0')) rest else n

abbrev pub starts_with_digit : Bytes → Bool
starts_with_digit [] = false
starts_with_digit (c ∷ rest) = is_digit c

-- `std::from_chars` into an `int64_t` in base ten: the longest match of an optional minus sign and
-- digits; no value if there is no digit or the number does not fit.
unfoldable pub from_chars_unsigned : ℕ → Bytes → Option ℕ
unfolding digits
from_chars_unsigned limit str =
    if starts_with_digit str
    then (let n = digits 0 str in if leb n limit then some n else none)
    else none

abbrev negated : Option ℕ → Option ℕ
negated none = none
negated (some n) = some (u64 (2 ^ 64 - n))

unfoldable pub from_chars : Bytes → Option ℕ
unfolding from_chars_unsigned
from_chars [] = none
from_chars (c ∷ rest) =
    if c == b'-'
    then negated (from_chars_unsigned (2 ^ 63) rest)
    else from_chars_unsigned (2 ^ 63 - 1) (c ∷ rest)

abbrev value_or_zero : Option ℕ → ℕ
value_or_zero none = 0
value_or_zero (some val) = val

-- `toLong`
unfoldable pub to_long : Bytes → ℕ
unfolding from_chars
to_long str = value_or_zero (from_chars str)

-- The loop of `split` and `splitStringView`: `in_token` is the token that has begun.
unfoldable pub split_loop : ℕ → Option Bytes → Bytes → List Bytes
split_loop delim none [] = []
split_loop delim (some token) [] = token ∷ []
split_loop delim none (elem ∷ rest) = elim (elem == delim) [
  | true ↦ [] ∷ split_loop delim none rest
  | false ↦ split_loop delim (some (elem ∷ [])) rest
]
split_loop delim (some token) (elem ∷ rest) = elim (elem == delim) [
  | true ↦ token ∷ split_loop delim none rest
  | false ↦ split_loop delim (some (token ++ (elem ∷ []))) rest
]

unfoldable pub split : ℕ → Bytes → List Bytes
unfolding split_loop
split delim string = split_loop delim none string

unfoldable pub join_rest : ℕ → List Bytes → Bytes
join_rest separator [] = []
join_rest separator (part ∷ parts) = separator ∷ (part ++ join_rest separator parts)

unfoldable pub join : ℕ → List Bytes → Bytes
unfolding join_rest
join separator [] = []
join separator (part ∷ parts) = part ++ join_rest separator parts
