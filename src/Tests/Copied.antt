-- ===== src/Tests/Copied.antt =====
-- Reads through the C interface.
use axon_cache.Prelude.{
  ℕ, ◌^◌, ◌<◌, ◌≡◌, refl, none, some, true, get_elem?, Bool, [], ◌∷◌, Bytes, Result, ok,
}
use axon_cache.Copies.{
  CacheReader, get_key, get_vector_key_item, get_vector_key_size, get_vector_copy,
}
use axon_cache.Copies.Reads.{copied_if, get_key-copied}
use axon_cache.Typed.Linear.{reader}
use axon_cache.Tests.Linear.{seven, key_a}
use axon_cache.Tests.TypedCache.{stock, contents, goods, stock-IsReader, stock-Encodes}

abbrev has_all : Bytes → Result Bool
has_all key = ok true

abbrev loaded : CacheReader
loaded = record {
  cache_type = 3;
  linear_probe_cache = some (record { reader = reader seven stock; contains = has_all });
  dedup_cache = none;
  bucket_chain_cache = none;
}

get_key-copied_example :
    (get_key loaded (some key_a) ≡ ok ((some (b'x' ∷ b'y' ∷ 0 ∷ []), 2), true))
    × (get_vector_key_size loaded (some key_a) ≡ ok 0)
    × ((i : ℕ)
        → i < 2 ^ 31
        → get_vector_key_item loaded (some key_a) i ≡ ok (copied_if (get_elem? [] i)))
    × (get_vector_copy loaded (some key_a) ≡ ok [])
get_key-copied_example =
    get_key-copied seven.hash contents (reader seven stock) stock-IsReader goods stock-Encodes
      has_all loaded refl refl key_a
