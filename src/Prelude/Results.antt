-- ===== src/Prelude/Results.antt =====
-- What a call of the C++ code ends in: a value, an exception, undefined behaviour (a read through a freed
-- pointer, a division by zero), or a loop that does not end.
use mathlib.Core.Path.{◌≡◌}
use mathlib.Core.Bool.{Bool, true, false}

-- The `std::runtime_error`s, by their messages.
pub data Error : Type 0 where
  key_space_is_full : Error
  key_size_too_large : Error
  value_size_too_large : Error
  offset_bits_too_short : Error
  offset_bits_out_of_range : Error
  load_factor_too_large : Error
  vector_too_large : Error
  vector_element_too_large : Error
  malformed_cache : Error
  too_many_duplicated_values : Error
  values_already_loaded : Error
  values_already_set : Error
  frequent_values_size_mismatch : Error
  data_size_mismatch : Error
  not_resizable : Error
  type_is_string : Error
  unknown_value_type : Error
  conversion_failed : Error
  not_a_normal_number : Error
  could_not_open : Error
  not_linear_probe_data : Error
  version_mismatch : Error
  empty_timestamp : Error
  no_input_file : Error

pub data Result {ℓ} (A : Type ℓ) : Type ℓ where
  ok : A → Result A
  throw : Error → Result A
  undefined : Result A
  diverges : Result A

-- `if ( test ) throw e;`
abbrev pub guard : Bool → Error → Result (Unit {0})
guard false error = ok tt
guard true error = throw error

-- The call ends normally, in a value that satisfies `P`.
abbrev pub Returns {ℓ κ} : {A : Type ℓ} → Result A → (A → Type κ) → Type (ℓ ⊔ κ)
Returns {A} r P = (a : A) × (r ≡ ok a) × P a

-- The next statement runs on the value of the last one, if that one ended normally.
infixl 5 ◌>>=◌
abbrev pub ◌>>=◌ {ℓ κ} : {X : Type ℓ} {Y : Type κ} → Result X → (X → Result Y) → Result Y
throw error >>= next = throw error
undefined >>= next = undefined
diverges >>= next = diverges
ok x >>= next = next x

infixl 5 ◌>>◌
abbrev pub ◌>>◌ {κ} : {Y : Type κ} → Result (Unit {0}) → Result Y → Result Y
first >> second = first >>= λ _. second

-- A call that changes an object ends in a result and in the object as the call leaves it, also
-- when it throws. This goes on with the value, or stops with the object `s`.
abbrev pub on_ok {ℓ κ σ} :
    {A : Type ℓ} {B : Type κ} {S : Type σ} → Result A → S → (A → Result B × S) → Result B × S
on_ok (ok a) s f = f a
on_ok (throw e) s f = (throw e, s)
on_ok undefined s f = (undefined, s)
on_ok diverges s f = (diverges, s)
