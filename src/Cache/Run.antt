-- ===== src/Cache/Run.antt =====
-- Runs of puts: whatever a sequence of `put`s that return normally leaves is read back
-- (src/axoncache/cache/base/HashedCacheBase.cpp).
use axon_cache.Prelude.{ℕ, ◌≡◌, subst, none, some, Bytes, ok, Bool, Result, List, [], ◌∷◌}
use axon_cache.Domain.{CacheValueType, type_code}
use axon_cache.Value.Add.{value_entry, CanGrow}
use axon_cache.Cache.{Cache, Hasher, put_internal, get_with_type_internal}
use axon_cache.Cache.Models.{IsWritable}
use axon_cache.Cache.Outcome.{
  Spec, Refines, put_spec, Outcome, put_internal-Outcome, full, exists, long_key, long_value,
  far_offset, stored,
}
use axon_cache.Cache.Lookup.{spec_get_with_type, get_with_type_internal-spec_get_with_type}

-- The puts of a run, the last one first.
abbrev pub Log : Type 0
Log = List (Bytes × CacheValueType × Bytes)

-- A put of a key that the map has changes nothing.
abbrev pub put_new : Spec → Bytes → CacheValueType → Bytes → Spec
put_new s key type value = elim (s key) [ none ↦ put_spec s key type value | some _ ↦ s ]

abbrev pub log_spec : Log → Spec
log_spec [] = λ _. none
log_spec ((key, type, value) ∷ log) = put_new (log_spec log) key type value

-- Every put of the run returned, and no capacity wrapped around.
pub data Puts (h : Hasher) (c : Cache) : Log → Cache → Type 0 where
  start : Puts h c [] c
  put :
      {log : Log} {d d' : Cache} {r : Bool × ℕ} (key : Bytes) (type : CacheValueType)
      (value : Bytes)
      → Puts h c log d
      → CanGrow d.memory (value_entry key (type_code type) value)
      → put_internal h key type value d ≡ (ok r, d')
      → Puts h c ((key, type, value) ∷ log) d'

module _ (s : Spec) (key : Bytes) (type : CacheValueType) (value : Bytes) where
  put_new-old : {old : CacheValueType × Bytes} → s key ≡ some old → put_new s key type value ≡ s
  put_new-old at = rw (at, put_new)

  put_new-new : s key ≡ none → put_new s key type value ≡ put_spec s key type value
  put_new-new at = rw (at, put_new)

-- One put that returns.
put_step :
    (h : Hasher) (s : Spec) (c c' : Cache) (r : Bool × ℕ) (key : Bytes) (type : CacheValueType)
    (value : Bytes) (o : Result (Bool × ℕ) × Cache)
    → Refines h s c
    → IsWritable c
    → Outcome h s key type value c o
    → o ≡ (ok r, c')
    → Refines h (put_new s key type value) c' × IsWritable c'
put_step h s c c' r key type value o v w (full at e) run = absurd (cc e)
put_step h s c c' r key type value o v w (exists old n spare at e) run =
    let one : c ≡ c' = cc e in
    subst (λ x. Refines h (put_new s key type value) x × IsWritable x) one
      (rw (put_new-old s key type value at) (v, w))
put_step h s c c' r key type value o v w (long_key spare new long e) run = absurd (cc e)
put_step h s c c' r key type value o v w (long_value spare new short long e) run = absurd (cc e)
put_step h s c c' r key type value o v w (far_offset m spare new short far a e) run = absurd (cc e)
put_step h s c c' r key type value o v w (stored n c1 spare new short near e v' w' more coll grew)
      run =
    let one : c1 ≡ c' = cc e in
    subst (λ x. Refines h (put_new s key type value) x × IsWritable x) one
      (rw (put_new-new s key type value new) (v', w'))

module _ (h : Hasher) (c : Cache) (v : Refines h (λ _. none) c) (w : IsWritable c) where
  -- After any run of puts that return, from an empty cache, the cache is writable and refines the map
  -- in which each key has the first value that was put under it.
  pub Puts-Refines :
      {log : Log} {d : Cache} → Puts h c log d → Refines h (log_spec log) d × IsWritable d
  Puts-Refines start = (v, w)
  Puts-Refines (put {log = log} {d = d} {d' = d'} {r = r} key type value p g run) =
      let (v', w') = Puts-Refines p in
      put_step h (log_spec log) d d' r key type value _ v' w'
        (put_internal-Outcome h (log_spec log) d v' w' key type value g) run

  -- After such a run, `getWithTypeInternal` returns, for every key, the first value that was put
  -- under it with its type and the key's hash, and the empty string with the hash 0 if there is none.
  pub get_with_type_internal-Puts :
      {log : Log} {d : Cache} (key : Bytes)
      → Puts h c log d
      → get_with_type_internal h key d ≡ ok (spec_get_with_type (log_spec log key) (h.hash key))
  get_with_type_internal-Puts {log} {d} key p =
      get_with_type_internal-spec_get_with_type h (log_spec log) d (Puts-Refines p).0 key
