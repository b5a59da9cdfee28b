-- ===== src/Typed/Stored.antt =====
-- Lemmas on the stored bytes of typed values.
use axon_cache.Prelude.{
  ℕ, suc, not, ◌==◌, ◌^◌, ◌<◌, ◌≡◌, refl, ap, List, [], ◌∷◌, Bytes, some, is_empty, false, true,
  Bool, Result, ok, ◌>>=◌, arith,
}
use axon_cache.Ram.{le}
use axon_cache.Domain.{CacheValueType, string}
use axon_cache.Convert.{null_terminated, floats_to_string, type_to_string}
use axon_cache.Convert.Laws.{
  trim_extra_null_terminator-null_terminated, string_list_to-step, string_list_from-step,
  elements_round,
}
use axon_cache.Typed.{shown, or_default}
use axon_cache.Typed.Values.{
  Typed, text, texts, flag, whole, real, reals, bit, encode, IsTyped, IsEncoded, text_stored,
  texts_stored, flag_stored, whole_stored, real_stored, reals_stored,
}

pub is_empty-null_terminated : (s : Bytes) → is_empty (null_terminated s) ≡ false
unfolding null_terminated
is_empty-null_terminated [] = refl
is_empty-null_terminated (x ∷ s) = refl

pub shown-null_terminated : (s : Bytes) → shown string (null_terminated s) ≡ ok s
shown-null_terminated s =
    rw (is_empty-null_terminated s) (trim_extra_null_terminator-null_terminated s)

pub bit-lt : (b : Bool) → bit b < 256 ^ 1
bit-lt true = omega arith
bit-lt false = omega arith

-- A typed value that the program can hold is encoded.
pub encode-IsEncoded :
    (t : Typed)
    → IsTyped t
    → (x : CacheValueType × Bytes) × (encode t ≡ ok x) × IsEncoded (some t) (some x)
unfolding encode le
encode-IsEncoded (text s) h = (_, refl, text_stored s)
encode-IsEncoded (texts l) (few, short) =
    let (r, to, from) = elements_round l short in
    (
      _,
      ap (λ (x : Result Bytes). x >>= λ str. ok (CacheValueType.string_list, str))
          (string_list_to-step l r few to),
      texts_stored l _ (string_list_from-step l r few (from [])) refl,
    )
encode-IsEncoded (flag b) h = (_, refl, flag_stored b)
encode-IsEncoded (whole v) h = (_, refl, whole_stored v h)
encode-IsEncoded (real v) h = (_, refl, real_stored v h)
encode-IsEncoded (reals fs) h = (_, refl, reals_stored fs h)

pub is_empty-type_to_string : (w v : ℕ) → is_empty (type_to_string (suc w) v) ≡ false
unfolding type_to_string le
is_empty-type_to_string w v = refl

pub not-bit : (b : Bool) → not (bit b == 0) ≡ b
not-bit true = refl
not-bit false = refl

pub is_empty-floats_to_string : (f : ℕ) (fs : List ℕ) → is_empty (floats_to_string (f ∷ fs)) ≡ false
unfolding floats_to_string le
is_empty-floats_to_string f fs = refl

pub floats_to_string-nil : floats_to_string [] ≡ []
unfolding floats_to_string
floats_to_string-nil = refl

pub or_default-same : {A : Type 0} (d : List A) → or_default d d ≡ d
or_default-same [] = refl
or_default-same (x ∷ xs) = refl
