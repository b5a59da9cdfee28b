-- ===== src/Settings/Laws.antt =====
-- Which setting counts (include/axoncache/common/SharedSettingsProvider.h).
use axon_cache.Prelude.{
  ◌≡◌, refl, ap, ◌∙◌, inl, inr, List, [], ◌∷◌, Bytes, Option, none, some, bytes_eq, bytes_eq-eq,
  or_else, Bool-cases, if◌then◌else◌,
}
use axon_cache.MapCache.{find_entry, value_or}
use axon_cache.Build.{get_lines}
use axon_cache.Settings.{
  trim, split_first_occurence, has_char, set_setting, set_components, load_settings, new_settings,
  c_str, get_setting,
}

-- The setting of a line, if the line has a `=`, and no `#` before it.
abbrev pub setting_of : List Bytes → Option (Bytes × Bytes)
setting_of (front ∷ (back ∷ [])) =
    if has_char b'#' (trim front) then none else some (trim front, trim back)
setting_of _ = none

abbrev pub value_under : Bytes → Option (Bytes × Bytes) → Option Bytes
value_under name none = none
value_under name (some (key, value)) = if bytes_eq key name then some value else none

-- The value of the last setting with the name.
abbrev pub last_value : Bytes → List Bytes → Option Bytes
last_value name [] = none
last_value name (line ∷ lines) =
    or_else (last_value name lines)
      (value_under name (setting_of (split_first_occurence b'=' line)))

find_entry-set_setting :
    (name key value : Bytes) (settings : List (Bytes × Bytes))
    → find_entry name (set_setting key value settings)
      ≡ or_else (value_under name (some (key, value))) (find_entry name settings)
unfolding find_entry set_setting
find_entry-set_setting name key value [] = elim (Bool-cases (bytes_eq key name)) [
  | inl same ↦ rw same
  | inr other ↦ rw other
]
find_entry-set_setting name key value ((k, v) ∷ settings) = elim (Bool-cases (bytes_eq k key)) [
  | inl same ↦ elim (Bool-cases (bytes_eq key name)) [
    | inl hit ↦ rw (same, bytes_eq-eq k key same, hit)
    | inr miss ↦ rw (same, bytes_eq-eq k key same, miss)
  ]
  | inr other ↦ elim (Bool-cases (bytes_eq k name)) [
    | inl hit ↦ elim (Bool-cases (bytes_eq key name)) [
      | inl equal ↦ absurd (cc (hit, ap (bytes_eq k) (bytes_eq-eq key name equal), other))
      | inr miss ↦ rw (other, hit, miss)
    ]
    | inr miss ↦ rw (other, miss) (find_entry-set_setting name key value settings)
  ]
]

find_entry-set_components :
    (name : Bytes) (components : List Bytes) (settings : List (Bytes × Bytes))
    → find_entry name (set_components components settings)
      ≡ or_else (value_under name (setting_of components)) (find_entry name settings)
find_entry-set_components name [] settings = refl
find_entry-set_components name (front ∷ []) settings = refl
find_entry-set_components name (front ∷ (back ∷ [])) settings =
    elim (Bool-cases (has_char b'#' (trim front))) [
      | inl comment ↦ rw comment
      | inr plain ↦ rw plain (find_entry-set_setting name (trim front) (trim back) settings)
    ]
find_entry-set_components name (front ∷ (back ∷ (more ∷ rest))) settings = refl

or_else_assoc : (a b c : Option Bytes) → or_else a (or_else b c) ≡ or_else (or_else a b) c
or_else_assoc none b c = refl
or_else_assoc (some v) b c = refl

find_entry-load_settings :
    (name : Bytes) (lines : List Bytes) (settings : List (Bytes × Bytes))
    → find_entry name (load_settings lines settings)
      ≡ or_else (last_value name lines) (find_entry name settings)
unfolding load_settings
find_entry-load_settings name [] settings = refl
find_entry-load_settings name (line ∷ lines) settings =
    let components = split_first_occurence b'=' line in
    find_entry-load_settings name lines (set_components components settings)
    ∙ ap (or_else (last_value name lines)) (find_entry-set_components name components settings)
    ∙ or_else_assoc (last_value name lines) (value_under name (setting_of components))
        (find_entry name settings)

or_else-none : (o : Option Bytes) → or_else o none ≡ o
or_else-none none = refl
or_else-none (some v) = refl

-- Of a settings file, `getString` returns the value of the last line whose part before the first `=`,
-- trimmed, is the name up to a NUL and has no `#`: what stands behind that `=`, trimmed. If no line is
-- such, it returns the default.
pub get_setting-last_value :
    (file name default : Bytes)
    → get_setting (new_settings (some file)) name default
      ≡ value_or default (last_value (c_str name) (get_lines 10 [] file))
unfolding get_setting new_settings find_entry
get_setting-last_value file name default = ap (value_or default) (
    find_entry-load_settings (c_str name) (get_lines 10 [] file) []
    ∙ or_else-none (last_value (c_str name) (get_lines 10 [] file)))
