-- ===== src/Tests/Maps.antt =====
-- A small map cache.
use axon_cache.Prelude.{◌≡◌, refl, true, [], ◌∷◌}
use axon_cache.MapCache.{
  MapCache, find_entry, put_string, put_string_list, map_get, map_contains, map_output,
}
use axon_cache.MapCache.Laws.{put_string-map_get}

abbrev one_text : MapCache
one_text = record { strings = (b'k' ∷ [], b'v' ∷ []) ∷ []; string_lists = [] }

put_string-map_get_example :
    ((put_string (b'm' ∷ []) (b'w' ∷ []) one_text).0 ≡ (true, 0))
    × (map_get (b'm' ∷ []) (put_string (b'm' ∷ []) (b'w' ∷ []) one_text).1 ≡ b'w' ∷ [])
    × (map_contains (b'm' ∷ []) (put_string (b'm' ∷ []) (b'w' ∷ []) one_text).1 ≡ true)
unfolding find_entry map_get
put_string-map_get_example = put_string-map_get (b'm' ∷ []) (b'm' ∷ []) (b'w' ∷ []) one_text

output_run :
    map_output (put_string_list (b'l' ∷ []) ((b'x' ∷ []) ∷ (b'y' ∷ []) ∷ []) one_text).1
    ≡ b'k' ∷ b'=' ∷ b'v' ∷ 10 ∷ b'l' ∷ b'=' ∷ b'x' ∷ b'|' ∷ b'y' ∷ 10 ∷ []
unfolding map_output put_string_list
output_run = refl
