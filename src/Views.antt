-- ===== src/Views.antt =====
-- Splits, trims and number vectors over views (include/axoncache/common/StringViewUtils.h,
-- include/axoncache/common/StringConversion.h). A size hint only reserves memory.
pub mod Split
pub mod Trim
use axon_cache.Prelude.{
  ℕ, zero, suc, Bool, true, false, List, [], ◌∷◌, ◌++◌, map, Bytes, Option, none, some, is_empty,
  length, leb, not, ◌==◌, ◌&&◌, ◌||◌, if◌then◌else◌, Result, ok, throw, guard, ◌>>=◌, ◌>>◌,
  conversion_failed, not_a_normal_number,
}

-- `stringViewSplit` at a character: `token` is what lies between `first` and `current`.
unfoldable pub view_split_loop : ℕ → Bytes → Bytes → List Bytes
view_split_loop delimiter token [] = token ∷ []
view_split_loop delimiter token (c ∷ rest) = elim (c == delimiter) [
  | true ↦ token ∷ view_split_loop delimiter [] rest
  | false ↦ view_split_loop delimiter (token ++ (c ∷ [])) rest
]

unfoldable pub string_view_split : ℕ → Bytes → List Bytes
unfolding view_split_loop
string_view_split delimiter [] = [] ∷ []
string_view_split delimiter (c ∷ rest) = view_split_loop delimiter [] (c ∷ rest)

-- What is left behind a prefix.
unfoldable pub strip_prefix : Bytes → Bytes → Option Bytes
strip_prefix [] input = some input
strip_prefix (d ∷ ds) [] = none
strip_prefix (d ∷ ds) (c ∷ rest) = if d == c then strip_prefix ds rest else none

abbrev pub found_here : Option Bytes → (Unit {0} → Bytes × Option Bytes) → Bytes × Option Bytes
found_here (some rest) later = ([], some rest)
found_here none later = later tt

abbrev pub behind : ℕ → Bytes × Option Bytes → Bytes × Option Bytes
behind c (piece, rest) = (c ∷ piece, rest)

-- `std::search`: what comes before the first occurrence of the delimiter, and what comes after it if
-- there is one.
unfoldable pub search_delimiter : Bytes → Bytes → Bytes × Option Bytes
unfolding strip_prefix
search_delimiter delimiter [] = ([], none)
search_delimiter delimiter (c ∷ rest) =
    found_here (strip_prefix delimiter (c ∷ rest)) λ _. behind c (search_delimiter delimiter rest)

-- The loop of the split at a string. A delimiter at the very end leaves an empty last view. The fuel
-- is the size of the input, which every turn shortens.
unfoldable pub split_at_loop : ℕ → Bytes → Bytes → List Bytes
unfolding search_delimiter
split_at_loop zero delimiter input = [] ∷ []
split_at_loop (suc fuel) delimiter [] = [] ∷ []
split_at_loop (suc fuel) delimiter (c ∷ rest) =
    let (piece, found) = search_delimiter delimiter (c ∷ rest) in
    elim found [ none ↦ piece ∷ [] | some after ↦ piece ∷ split_at_loop fuel delimiter after ]

-- `stringViewSplit` at a string
unfoldable pub string_view_split_at : Bytes → Bytes → List Bytes
unfolding split_at_loop
string_view_split_at delimiter [] = [] ∷ []
string_view_split_at delimiter (c ∷ rest) =
    if is_empty delimiter
    then (c ∷ rest) ∷ []
    else split_at_loop (length (c ∷ rest)) delimiter (c ∷ rest)

abbrev pub is_any_of : Bytes → ℕ → Bool
is_any_of [] c = false
is_any_of (d ∷ ds) c = (c == d) || is_any_of ds c

unfoldable pub multi_split_loop : Bytes → Bytes → Bytes → List Bytes
multi_split_loop delimiters token [] = token ∷ []
multi_split_loop delimiters token (c ∷ rest) = elim (is_any_of delimiters c) [
  | true ↦ token ∷ multi_split_loop delimiters [] rest
  | false ↦ multi_split_loop delimiters (token ++ (c ∷ [])) rest
]

-- `stringViewSplitMultiDelimiters`: `std::find_first_of` and a step over the character that it found;
-- a delimiter as the last character leaves an empty view.
unfoldable pub string_view_split_multi_delimiters : Bytes → Bytes → List Bytes
unfolding multi_split_loop
string_view_split_multi_delimiters delimiters input =
    if is_empty input
    then [] ∷ []
    else if is_empty delimiters
    then input ∷ []
    else multi_split_loop delimiters [] input

abbrev pub is_space : ℕ → Bool
is_space c = (c == 32) || (leb 9 c && leb c 13)

-- The first loop of a trim: `left` moves over the characters to drop.
unfoldable pub drop_front : (ℕ → Bool) → Bytes → Bytes
drop_front p [] = []
drop_front p (c ∷ rest) = elim (p c) [ true ↦ drop_front p rest | false ↦ c ∷ rest ]

abbrev pub cons_kept : (ℕ → Bool) → ℕ → Bytes → Bytes
cons_kept p c [] = if p c then [] else c ∷ []
cons_kept p c (d ∷ rest) = c ∷ (d ∷ rest)

-- The second loop: `right` moves back over the characters to drop.
unfoldable pub drop_back : (ℕ → Bool) → Bytes → Bytes
drop_back p [] = []
drop_back p (c ∷ rest) = cons_kept p c (drop_back p rest)

-- `stringViewTrim`
unfoldable pub string_view_trim : Bytes → Bytes → Bytes
unfolding drop_front drop_back
string_view_trim trim_chars input =
    drop_back (is_any_of trim_chars) (drop_front (is_any_of trim_chars) input)

-- `trimSpaces`
unfoldable pub trim_spaces : Bytes → Bytes
unfolding drop_front drop_back
trim_spaces input = drop_back is_space (drop_front is_space input)

-- `fast_float::from_chars` into a type `T` (vendored): the value's bit pattern if there is no error
-- code, and the properties of the pattern that the code asks for.
pub record NumberParser : Type 0 where
  pub from_chars : Bytes → Option ℕ
  pub is_floating_point : Bool
  pub is_normal : ℕ → Bool
  pub is_zero : ℕ → Bool

abbrev pub is_refused : NumberParser → ℕ → Bool
is_refused p value = p.is_floating_point && (not (p.is_normal value) && not (p.is_zero value))

abbrev pub number_or_throw : Option ℕ → Result ℕ
number_or_throw (some value) = ok value
number_or_throw none = throw conversion_failed

-- `toNumber`
unfoldable pub to_number : NumberParser → Bytes → Result ℕ
to_number p sv = number_or_throw (p.from_chars sv)

abbrev pub number_or {ℓ} : {A : Type ℓ} → A → Option A → A
number_or default_value none = default_value
number_or default_value (some value) = value

-- `toNumber` with a default
unfoldable pub to_number_or : NumberParser → ℕ → Bytes → ℕ
to_number_or p default_value sv = number_or default_value (p.from_chars sv)

-- `toNormalNumber`
unfoldable pub to_normal_number : NumberParser → Bytes → Result ℕ
unfolding to_number
to_normal_number p sv = do
  value ← to_number p sv
  guard (is_refused p value) not_a_normal_number
  ok value

abbrev pub normal_or : NumberParser → ℕ → Option ℕ → ℕ
normal_or p default_value none = default_value
normal_or p default_value (some value) = if is_refused p value then default_value else value

-- `toNormalNumber` with a default
unfoldable pub to_normal_number_or : NumberParser → ℕ → Bytes → ℕ
to_normal_number_or p default_value sv = normal_or p default_value (p.from_chars sv)

-- The numbers of `stringViewToVector`, in order; the first exception ends the call.
unfoldable pub numbers_of : NumberParser → List Bytes → Result (List ℕ)
unfolding to_normal_number trim_spaces
numbers_of p [] = ok []
numbers_of p (sv ∷ rest) = do
  value ← to_normal_number p (trim_spaces sv)
  values ← numbers_of p rest
  ok (value ∷ values)

-- `stringViewToVector`, whose loop cuts the input where `view_split_loop` does
unfoldable pub string_view_to_vector : NumberParser → ℕ → Bytes → Result (List ℕ)
unfolding numbers_of view_split_loop
string_view_to_vector p delimiter input = numbers_of p (view_split_loop delimiter [] input)

-- `stringViewToVectorWithDefault`
unfoldable pub string_view_to_vector_with_default : NumberParser → ℕ → ℕ → Bytes → List ℕ
unfolding to_normal_number_or trim_spaces view_split_loop
string_view_to_vector_with_default p default_value delimiter input =
    map (λ (sv : Bytes). to_normal_number_or p default_value (trim_spaces sv))
      (view_split_loop delimiter [] input)

abbrev pub without_empty_last : List Bytes → List Bytes
without_empty_last [] = []
without_empty_last ([] ∷ []) = []
without_empty_last ((c ∷ view) ∷ []) = (c ∷ view) ∷ []
without_empty_last (view ∷ (next ∷ views)) = view ∷ without_empty_last (next ∷ views)

unfoldable pub numbers_by : NumberParser → (Bytes → Bytes) → List Bytes → Result (List ℕ)
unfolding to_normal_number
numbers_by p process [] = ok []
numbers_by p process (sv ∷ rest) = do
  value ← to_normal_number p (process sv)
  values ← numbers_by p process rest
  ok (value ∷ values)

-- `stringViewToVector` with a function on the views; an empty last view is skipped.
unfoldable pub string_view_to_vector_by :
    NumberParser → (Bytes → Bytes) → ℕ → Bytes → Result (List ℕ)
unfolding numbers_by view_split_loop
string_view_to_vector_by p process delimiter input =
    numbers_by p process (without_empty_last (view_split_loop delimiter [] input))
