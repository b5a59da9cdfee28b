-- ===== src/Settings.antt =====
-- The settings file (include/axoncache/common/SharedSettingsProvider.h, and trim and
-- splitFirstOccurence of include/axoncache/common/StringUtils.h).
pub mod Laws
use axon_cache.Prelude.{
  ℕ, ◌-◌, ◌^◌, ◌%◌, Bool, true, false, ◌&&◌, ◌||◌, List, [], ◌∷◌, Bytes, Option, none, some,
  is_empty, length, ◌==◌, bytes_eq, if◌then◌else◌,
}
use axon_cache.Text.{to_bool, from_chars_unsigned}
use axon_cache.Typed.{DoubleParsers}
use axon_cache.Parser.{CacheValueParser, cut}
use axon_cache.MapCache.{find_entry, is_found, value_or}
use axon_cache.Build.{get_lines}

abbrev pub is_whitespace : ℕ → Bool
is_whitespace c = c == 32 || (c == 9 || (c == 12 || (c == 11 || (c == 10 || c == 13))))

-- What is left when the whitespaces at the end are erased.
unfoldable pub erase_end : Bytes → Bytes
erase_end [] = []
erase_end (c ∷ s) =
    let rest = erase_end s in if is_whitespace c && is_empty rest then [] else c ∷ rest

unfoldable pub erase_start : Bytes → Bytes
erase_start [] = []
erase_start (c ∷ s) = if is_whitespace c then erase_start s else c ∷ s

-- `trim`
unfoldable pub trim : Bytes → Bytes
unfolding erase_end erase_start
trim string = erase_start (erase_end string)

-- `splitFirstOccurence`
unfoldable pub split_first_occurence : ℕ → Bytes → List Bytes
unfolding cut
split_first_occurence delim string = elim (cut delim string) [
  | none ↦ string ∷ []
  | some (before, after) ↦ before ∷ (after ∷ [])
]

unfoldable pub has_char : ℕ → Bytes → Bool
has_char d [] = false
has_char d (c ∷ s) = c == d || has_char d s

-- `mSettings[key] = value`
unfoldable pub set_setting : Bytes → Bytes → List (Bytes × Bytes) → List (Bytes × Bytes)
set_setting key value [] = (key, value) ∷ []
set_setting key value ((k, v) ∷ settings) =
    if bytes_eq k key then (k, value) ∷ settings else (k, v) ∷ set_setting key value settings

abbrev pub set_components : List Bytes → List (Bytes × Bytes) → List (Bytes × Bytes)
set_components (front ∷ (back ∷ [])) settings =
    let key = trim front in
    if has_char b'#' key then settings else set_setting key (trim back) settings
set_components _ settings = settings

-- The loop of the constructor.
unfoldable pub load_settings : List Bytes → List (Bytes × Bytes) → List (Bytes × Bytes)
unfolding split_first_occurence
load_settings [] settings = settings
load_settings (line ∷ lines) settings =
    load_settings lines (set_components (split_first_occurence b'=' line) settings)

-- The constructor, over a settings file that may be missing.
unfoldable pub new_settings : Option Bytes → List (Bytes × Bytes)
unfolding load_settings get_lines
new_settings none = []
new_settings (some file) = load_settings (get_lines 10 [] file) []

-- What a name is as a C string.
unfoldable pub c_str : Bytes → Bytes
c_str [] = []
c_str (c ∷ s) = if c == 0 then [] else c ∷ c_str s

-- `getString`
unfoldable pub get_setting : List (Bytes × Bytes) → Bytes → Bytes → Bytes
unfolding c_str find_entry
get_setting settings name default = value_or default (find_entry (c_str name) settings)

-- `getBool`
unfoldable pub get_bool_setting : List (Bytes × Bytes) → Bytes → Bool → Bool
unfolding get_setting to_bool
get_bool_setting settings name default =
    let string_value = get_setting settings name [] in
    if is_empty string_value then default else to_bool string_value

abbrev negated_int : Option ℕ → ℕ
negated_int none = 0
negated_int (some n) = (2 ^ 32 - n) % 2 ^ 32

abbrev int_or_zero : Option ℕ → ℕ
int_or_zero none = 0
int_or_zero (some n) = n

-- `toInteger`; an `int32_t` is its two's complement pattern.
unfoldable pub to_integer : Bytes → ℕ
unfolding from_chars_unsigned
to_integer [] = 0
to_integer (c ∷ rest) =
    if c == b'-'
    then negated_int (from_chars_unsigned (2 ^ 31) rest)
    else int_or_zero (from_chars_unsigned (2 ^ 31 - 1) (c ∷ rest))

-- `getInt`
unfoldable pub get_int : List (Bytes × Bytes) → Bytes → ℕ → ℕ
unfolding get_setting to_integer
get_int settings name default =
    let string_value = get_setting settings name [] in
    if is_empty string_value then default else to_integer string_value

-- `toDouble`, over fast_float.
unfoldable pub to_double : DoubleParsers → Bytes → ℕ
to_double parsers [] = 0
to_double parsers (c ∷ s) = or_zero (parsers.fast_from_chars (c ∷ s))
  where
    or_zero : Option (ℕ × ℕ) → ℕ
    or_zero none = 0
    or_zero (some (result, consumed)) = if consumed == length (c ∷ s) then result else 0

-- `getDouble`
unfoldable pub get_double_setting : DoubleParsers → List (Bytes × Bytes) → Bytes → ℕ → ℕ
unfolding get_setting to_double
get_double_setting parsers settings name default =
    let string_value = get_setting settings name [] in
    if is_empty string_value then default else to_double parsers string_value

abbrev escaped : ℕ → Bytes → Bool
escaped c string = bytes_eq string (b'\\' ∷ (c ∷ []))

-- `getChar`
unfoldable pub get_char : List (Bytes × Bytes) → Bytes → ℕ → ℕ
unfolding get_setting
get_char settings name default = char_of (get_setting settings name [])
  where
    char_of : Bytes → ℕ
    char_of [] = default
    char_of (c ∷ rest) =
        let result = c ∷ rest in
        if escaped b'n' result
        then 10
        else if escaped b't' result
        then 9
        else if escaped b'r' result
        then 13
        else if escaped b'0' result
        then 0
        else if escaped b'b' result
        then 8
        else if escaped b'f' result
        then 12
        else if escaped b'a' result
        then 7
        else if escaped b'v' result
        then 11
        else if escaped b'\\' result
        then 92
        else c

-- `ConfKey`
abbrev vector_type_key : Bytes
vector_type_key =
    b'a' ∷ b'x' ∷ b'o' ∷ b'n' ∷ b'c' ∷ b'a' ∷ b'c' ∷ b'h' ∷ b'e' ∷ b'.' ∷ b'c' ∷ b'o' ∷ b'n' ∷ b't'
    ∷ b'r' ∷ b'o' ∷ b'l' ∷ b'_' ∷ b'c' ∷ b'h' ∷ b'a' ∷ b'r' ∷ b'.' ∷ b'v' ∷ b'e' ∷ b'c' ∷ b't'
    ∷ b'o' ∷ b'r' ∷ b'_' ∷ b't' ∷ b'y' ∷ b'p' ∷ b'e' ∷ []

abbrev vector_elem_key : Bytes
vector_elem_key =
    b'a' ∷ b'x' ∷ b'o' ∷ b'n' ∷ b'c' ∷ b'a' ∷ b'c' ∷ b'h' ∷ b'e' ∷ b'.' ∷ b'c' ∷ b'o' ∷ b'n' ∷ b't'
    ∷ b'r' ∷ b'o' ∷ b'l' ∷ b'_' ∷ b'c' ∷ b'h' ∷ b'a' ∷ b'r' ∷ b'.' ∷ b'v' ∷ b'e' ∷ b'c' ∷ b't'
    ∷ b'o' ∷ b'r' ∷ b'_' ∷ b'e' ∷ b'l' ∷ b'e' ∷ b'm' ∷ []

abbrev key_value_key : Bytes
key_value_key =
    b'a' ∷ b'x' ∷ b'o' ∷ b'n' ∷ b'c' ∷ b'a' ∷ b'c' ∷ b'h' ∷ b'e' ∷ b'.' ∷ b'c' ∷ b'o' ∷ b'n' ∷ b't'
    ∷ b'r' ∷ b'o' ∷ b'l' ∷ b'_' ∷ b'c' ∷ b'h' ∷ b'a' ∷ b'r' ∷ b'.' ∷ b'k' ∷ b'e' ∷ b'y' ∷ b'_'
    ∷ b'v' ∷ b'a' ∷ b'l' ∷ b'u' ∷ b'e' ∷ []

-- `CacheValueParser( settings )`
unfoldable pub new_parser : List (Bytes × Bytes) → CacheValueParser
unfolding get_char
new_parser settings = record {
  vector_type = get_char settings vector_type_key 1;
  vector_elem_separator = get_char settings vector_elem_key b'|';
  key_value_separator = get_char settings key_value_key b'=';
}

-- `isSet`
unfoldable pub is_set : List (Bytes × Bytes) → Bytes → Bool
unfolding find_entry
is_set settings key = is_found (find_entry key settings)

-- `setIfNotSet`
unfoldable pub set_if_not_set : Bytes → Bytes → List (Bytes × Bytes) → Bool × List (Bytes × Bytes)
unfolding is_set set_setting
set_if_not_set key value settings =
    if is_set settings key then (false, settings) else (true, set_setting key value settings)
