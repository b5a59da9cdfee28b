-- ===== src/Typed/Linear.antt =====
-- The typed interface of a linear probe cache (include/axoncache/cache/base/HashedCacheBase.h,
-- include/axoncache/cache/LinearProbeCache.h).
use axon_cache.Prelude.{
  ℕ, ◌+◌, ◌^◌, ◌≤◌, ◌<◌, ◌≡◌, refl, inl, inr, Option, none, some, Bool, true, Bytes, Result, ok,
  on_ok, length, bytes_eq, Bool-cases, if◌then◌else◌, arith,
}
use axon_cache.Domain.{CacheValueType, type_code, key_length_limit, value_length_limit}
use axon_cache.Value.Add.{value_entry, CanGrow}
use axon_cache.Value.Slot.{offset_of}
use axon_cache.Cache.{Cache, Hasher, put_internal, get_internal, get_with_type_internal}
use axon_cache.Cache.Models.{IsWritable}
use axon_cache.Cache.Outcome.{
  Spec, Refines, Grew, put_spec, Outcome, full, exists, long_key, long_value, far_offset, stored,
  put_internal-Outcome,
}
use axon_cache.Cache.Lookup.{get_internal-spec_get, get_with_type_internal-spec_get_with_type}
use axon_cache.Typed.{Reader}
use axon_cache.Typed.Values.{
  Typed, encode, IsTyped, IsEncoded, absent, text_stored, texts_stored, flag_stored, whole_stored,
  real_stored, reals_stored,
}
use axon_cache.Typed.Stored.{encode-IsEncoded}
use axon_cache.Typed.Reads.{IsReader, Encodes}

abbrev pub reader : Hasher → Cache → Reader
reader h c = record {
  get_internal = λ key type. get_internal h key type c;
  get_with_type_internal = λ key. get_with_type_internal h key c;
}

pub reader-IsReader :
    (h : Hasher) (s : Spec) (c : Cache) → Refines h s c → IsReader h.hash s (reader h c)
reader-IsReader h s c v = record {
  get_internal = λ key type. get_internal-spec_get h s c v key type;
  get_with_type_internal = λ key. get_with_type_internal-spec_get_with_type h s c v key;
}

-- The overloads of `put`.
unfoldable pub put_value : Hasher → Bytes → Typed → Cache → Result (Bool × ℕ) × Cache
put_value h key value c = on_ok (encode value) c λ (type, str). put_internal h key type str c

-- The cache stores the typed values of the map.
pub record Keeps (h : Hasher) (typed : Bytes → Option Typed) (c : Cache) : Type 0 where
  pub spec : Spec
  pub refines : Refines h spec c
  pub encodes : Encodes spec typed

abbrev pub put_typed : (Bytes → Option Typed) → Bytes → Typed → Bytes → Option Typed
put_typed typed key value k = if bytes_eq k key then some value else typed k

pub IsEncoded-none :
    {o : Option Typed} {x : Option (CacheValueType × Bytes)} → IsEncoded o x → o ≡ none → x ≡ none
IsEncoded-none absent e = refl
IsEncoded-none (text_stored s) e = absurd (cc e)
IsEncoded-none (texts_stored l str _ _) e = absurd (cc e)
IsEncoded-none (flag_stored b) e = absurd (cc e)
IsEncoded-none (whole_stored v _) e = absurd (cc e)
IsEncoded-none (real_stored v _) e = absurd (cc e)
IsEncoded-none (reals_stored fs _) e = absurd (cc e)

pub put_spec-Encodes :
    (s : Spec) (typed : Bytes → Option Typed) (key : Bytes) (value : Typed)
    (x : CacheValueType × Bytes)
    → Encodes s typed
    → IsEncoded (some value) (some x)
    → Encodes (put_spec s key x.0 x.1) (put_typed typed key value)
put_spec-Encodes s typed key value x old new k = elim (Bool-cases (bytes_eq k key)) [
  | inl same ↦ rw same new
  | inr other ↦ rw other (old k)
]

module _ (h : Hasher) (typed : Bytes → Option Typed) (c : Cache) (keeps : Keeps h typed c)
    (w : IsWritable c) (key : Bytes) (value : Typed) (is_typed : IsTyped value)
    (new : typed key ≡ none) (spare : c.number_of_entries < c.max_number_of_entries)
    (fits : offset_of c.probe c.memory.data_size < 2 ^ c.probe.offset_bits)
    (short_key : length key ≤ key_length_limit) where
  stored_result :
      (x : CacheValueType × Bytes)
      → IsEncoded (some value) (some x)
      → length x.1 ≤ value_length_limit
      → Outcome h keeps.spec key x.0 x.1 c (put_internal h key x.0 x.1 c)
      → (c' : Cache) × (n : ℕ) × (put_internal h key x.0 x.1 c ≡ (ok (true, n), c'))
        × Keeps h (put_typed typed key value) c'
        × IsWritable c'
        × Grew c (value_entry key (type_code x.0) x.1) c'
        × (c'.number_of_entries ≡ c.number_of_entries + 1)
  stored_result x enc short o =
      let unused = IsEncoded-none (keeps.encodes key) new in
      elim o [
        | full a _ ↦ absurd (omega arith)
        | exists old _ _ e _ ↦ absurd (cc (unused, e))
        | long_key _ _ long _ ↦ absurd (omega arith)
        | long_value _ _ _ long _ ↦ absurd (omega arith)
        | far_offset _ _ _ _ far _ _ ↦ absurd (omega arith)
        | stored n c' _ _ _ _ run r w' more _ grew ↦ (
          c',
          n,
          run,
          record {
            spec = put_spec keeps.spec key x.0 x.1;
            refines = r;
            encodes = put_spec-Encodes keeps.spec typed key value x keeps.encodes enc;
          },
          w',
          grew,
          more,
        )
      ]

  -- In a writable cache that keeps the typed values of a map, a typed `put` of a key that the map
  -- lacks, with a spare entry, a key and an encoded value within their limits, room for the offset in
  -- the slot and a memory that can grow, returns true; the cache then keeps the value under the key
  -- next to those it kept before, is writable, has one entry more, and its data has grown by the record
  -- of the encoded value.
  pub put_value-Keeps :
      ((x : CacheValueType × Bytes)
        → encode value ≡ ok x
        → (length x.1 ≤ value_length_limit)
          × CanGrow c.memory (value_entry key (type_code x.0) x.1))
      → (c' : Cache) × (n : ℕ) × (put_value h key value c ≡ (ok (true, n), c'))
        × Keeps h (put_typed typed key value) c'
        × IsWritable c'
        × ((x : CacheValueType × Bytes) × (encode value ≡ ok x)
            × Grew c (value_entry key (type_code x.0) x.1) c')
        × (c'.number_of_entries ≡ c.number_of_entries + 1)
  unfolding put_value
  put_value-Keeps room =
      let (x, to, enc) = encode-IsEncoded value is_typed in
      let (short, g) = room x to in
      let (c', n, run, kept, w', grew, more) =
        stored_result x enc short
          (put_internal-Outcome h keeps.spec c keeps.refines w key x.0 x.1 g) in
      (c', n, rw to run, kept, w', (x, to, grew), more)
