-- ===== src/MapCache/Laws.antt =====
-- The map cache as two partial maps (src/axoncache/cache/base/MapCacheBase.cpp).
use axon_cache.Prelude.{
  ◌≡◌, sym, ap, ◌∙◌, inl, inr, Bool, true, not, ◌||◌, ◌&&◌, List, Bytes, Option, none, some,
  bytes_eq, Bool-cases, Option-cases, bytes_eq-eq, if◌then◌else◌,
}
use axon_cache.MapCache.{
  find_entry, is_found, emplace_entry, MapCache, put_string, map_get, map_contains,
}

-- The first value of a key stays.
abbrev pub first_of {ℓ} : {A : Type ℓ} → Option A → A → Option A
first_of none value = some value
first_of (some old) value = some old

emplace_entry-find_entry :
    {A : Type 0} (key other : Bytes) (value : A) (entries : List (Bytes × A))
    → find_entry other (emplace_entry key value entries).1 ≡ (
        if bytes_eq key other
        then first_of (find_entry key entries) value
        else find_entry other entries)
unfolding emplace_entry find_entry
emplace_entry-find_entry key other value entries = elim (Option-cases (find_entry key entries)) [
  | inl e ↦ rw e
  | inr (old, e) ↦ elim (Bool-cases (bytes_eq key other)) [
    | inl same ↦
        rw (e, same)
          (ap (λ (k : Bytes). find_entry k entries) (sym (bytes_eq-eq key other same)) ∙ e)
    | inr different ↦ rw (e, different)
  ]
]

emplace_entry-is_found :
    {A : Type 0} (key : Bytes) (value : A) (entries : List (Bytes × A))
    → (emplace_entry key value entries).0 ≡ not (is_found (find_entry key entries))
unfolding emplace_entry
emplace_entry-is_found key value entries = elim (Option-cases (find_entry key entries)) [
  | inl e ↦ rw e
  | inr (old, e) ↦ rw e
]

module _ (key other value : Bytes) (c : MapCache) where
  found_other :
      (old : Bytes)
      → bytes_eq key other ≡ true
      → find_entry key c.strings ≡ some old
      → find_entry other c.strings ≡ some old
  found_other old same e =
      ap (λ (k : Bytes). find_entry k c.strings) (sym (bytes_eq-eq key other same)) ∙ e

  -- A `put` of a text reports whether the map of texts lacked the key; then `get` of the key returns
  -- the new text, and of every other key, or where the key was there, what it returned before. `contains`
  -- answers true of the key and what it answered before of every other one.
  pub put_string-map_get :
      ((put_string key value c).0 ≡ (not (is_found (find_entry key c.strings)), 0))
      × (map_get other (put_string key value c).1 ≡ (
          if bytes_eq key other && not (is_found (find_entry key c.strings))
          then value
          else map_get other c))
      × (map_contains other (put_string key value c).1
          ≡ (bytes_eq key other || map_contains other c))
  unfolding put_string map_get map_contains
  put_string-map_get =
      let stored = emplace_entry-find_entry key other value c.strings in
      (
        ap (λ (b : Bool). (b, 0)) (emplace_entry-is_found key value c.strings),
        elim (Bool-cases (bytes_eq key other)) [
          | inr different ↦ rw (stored, different)
          | inl same ↦ elim (Option-cases (find_entry key c.strings)) [
            | inl e ↦ rw (stored, same, e)
            | inr (old, e) ↦ rw (stored, same, e, found_other old same e)
          ]
        ],
        elim (Bool-cases (bytes_eq key other)) [
          | inr different ↦ rw (stored, different)
          | inl same ↦ elim (Option-cases (find_entry key c.strings)) [
            | inl e ↦ rw (stored, same, e)
            | inr (old, e) ↦ rw (stored, same, e)
          ]
        ],
      )
