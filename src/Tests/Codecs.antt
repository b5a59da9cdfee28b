-- ===== src/Tests/Codecs.antt =====
-- Conversions of concrete values.
use axon_cache.Prelude.{◌-◌, ◌^◌, true, ◌≡◌, refl, List, [], ◌∷◌, Bytes, ok, ◌>>=◌, arith}
use axon_cache.Convert.{string_list_to_string, string_list_from_string}
use axon_cache.Convert.Laws.{string_list_from_string-string_list_to_string}
use axon_cache.Text.{to_long, to_bool}

abbrev words : List Bytes
words = (b'a' ∷ b'b' ∷ []) ∷ [] ∷ (0 ∷ []) ∷ []

string_list_from_string-string_list_to_string_example :
    (string_list_to_string words >>= string_list_from_string) ≡ ok words
string_list_from_string-string_list_to_string_example =
    string_list_from_string-string_list_to_string words (omega arith)
      (omega arith, (omega arith, (omega arith, tt)))

abbrev parts : List Bytes
parts = [] ∷ (b'x' ∷ b'y' ∷ []) ∷ [] ∷ (b'z' ∷ []) ∷ []

-- The longest number is read before the first byte that is no digit.
to_long_run : to_long (b'4' ∷ b'2' ∷ b'x' ∷ []) ≡ 42
unfolding to_long
to_long_run = refl

to_long_negative : to_long (b'-' ∷ b'1' ∷ []) ≡ 2 ^ 64 - 1
unfolding to_long
to_long_negative = refl

to_bool_run : to_bool (b'T' ∷ b'r' ∷ b'U' ∷ b'e' ∷ []) ≡ true
unfolding to_bool
to_bool_run = refl
