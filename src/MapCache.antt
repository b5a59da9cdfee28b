-- ===== src/MapCache.antt =====
-- MapCacheBase (src/axoncache/cache/base/MapCacheBase.cpp): texts and lists of texts in two hash maps of
-- the standard library. A map is the list of its entries in the order in which it is walked.
pub mod Laws
use axon_cache.Prelude.{
  ℕ, Bool, true, false, not, ◌||◌, List, [], ◌∷◌, ◌++◌, Bytes, Option, none, some, bytes_eq,
  if◌then◌else◌,
}

module _ {ℓ} {A : Type ℓ} where
  unfoldable pub find_entry : Bytes → List (Bytes × A) → Option A
  find_entry key [] = none
  find_entry key ((k, value) ∷ entries) =
      if bytes_eq k key then some value else find_entry key entries

  abbrev pub is_found : Option A → Bool
  is_found none = false
  is_found (some value) = true

  -- `emplace`: the new map, and whether the key was new.
  unfoldable pub emplace_entry : Bytes → A → List (Bytes × A) → Bool × List (Bytes × A)
  unfolding find_entry
  emplace_entry key value entries =
      if is_found (find_entry key entries) then (false, entries) else (true, (key, value) ∷ entries)

  abbrev pub value_or : A → Option A → A
  value_or d none = d
  value_or d (some value) = value

pub record MapCache : Type 0 where
  pub strings : List (Bytes × Bytes)
  pub string_lists : List (Bytes × List Bytes)

-- The result is whether the value was stored, and the number of collisions.
unfoldable pub put_string : Bytes → Bytes → MapCache → (Bool × ℕ) × MapCache
unfolding emplace_entry
put_string key value c =
    let (stored, strings) = emplace_entry key value c.strings in
    ((stored, 0), record c { strings = strings })

unfoldable pub put_string_list : Bytes → List Bytes → MapCache → (Bool × ℕ) × MapCache
unfolding emplace_entry
put_string_list key value c =
    let (stored, string_lists) = emplace_entry key value c.string_lists in
    ((stored, 0), record c { string_lists = string_lists })

unfoldable pub map_get : Bytes → MapCache → Bytes
unfolding find_entry
map_get key c = value_or [] (find_entry key c.strings)

unfoldable pub map_get_vector : Bytes → MapCache → List Bytes
unfolding find_entry
map_get_vector key c = value_or [] (find_entry key c.string_lists)

unfoldable pub map_contains : Bytes → MapCache → Bool
unfolding find_entry
map_contains key c = is_found (find_entry key c.strings) || is_found (find_entry key c.string_lists)

unfoldable pub strings_output : List (Bytes × Bytes) → Bytes
strings_output [] = []
strings_output ((key, value) ∷ entries) = key ++ (b'=' ∷ (value ++ (10 ∷ strings_output entries)))

-- The parts of a list, each behind the prefix that the one before has set.
unfoldable pub parts_output : Bytes → List Bytes → Bytes
parts_output prefix [] = []
parts_output prefix (str ∷ strs) = prefix ++ (str ++ parts_output (b'|' ∷ []) strs)

unfoldable pub string_lists_output : List (Bytes × List Bytes) → Bytes
unfolding parts_output
string_lists_output [] = []
string_lists_output ((key, strs) ∷ entries) =
    key ++ (b'=' ∷ (parts_output [] strs ++ (10 ∷ string_lists_output entries)))

unfoldable pub map_output : MapCache → Bytes
unfolding strings_output string_lists_output
map_output c = strings_output c.strings ++ string_lists_output c.string_lists
