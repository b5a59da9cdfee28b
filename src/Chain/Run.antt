-- ===== src/Chain/Run.antt =====
-- What a put of a bucket chain cache changes for the lookups: a key answers by its first put
-- (src/axoncache/cache/base/HashedCacheBase.cpp, src/axoncache/cache/value/ChainedValue.cpp).
use axon_cache.Prelude.{
  ℕ, ◌+◌, ◌/◌, ◌^◌, ◌<◌, ◌≡◌, refl, sym, subst, inl, inr, Option, none, some, List, [], ◌∷◌, ◌++◌,
  Bytes, length, ok, Result, Bool, true, if◌then◌else◌, Bool-cases, bytes_eq,
}
use axon_cache.Domain.{CacheValueType, type_code}
use axon_cache.Memory.Laws.{IsHeap}
use axon_cache.Cache.{Hasher}
use axon_cache.Chain.{ChainCache, put_chain, get_chain}
use axon_cache.Chain.Layout.{Chained, chained_size}
use axon_cache.Chain.Walks.{first_of}
use axon_cache.Chain.Models.{Chains}
use axon_cache.Chain.Put.{chained, Outcome, full, long_key, long_value, stored, put_chain-Outcome}
use axon_cache.Chain.Lookup.{chain_answer, get_chain-chain_answer}

-- The first record with the key once `r` is put behind the others.
abbrev pub first_after : Bytes → Option Chained → Chained → Option Chained
first_after key (some first) r = some first
first_after key none r = if bytes_eq r.key key then some r else none

first_of-append :
    (key : Bytes) (log : List Chained) (r : Chained)
    → first_of key (log ++ (r ∷ [])) ≡ first_after key (first_of key log) r
first_of-append key [] r = refl
first_of-append key (x ∷ log) r = elim (Bool-cases (bytes_eq x.key key)) [
  | inl same ↦ rw same refl
  | inr other ↦ rw other (first_of-append key log r)
]

pub stored-Chains :
    (h : Hasher) (log : List Chained) (key : Bytes) (type : CacheValueType) (value : Bytes)
    (c c' : ChainCache) (r : Result (Bool × ℕ) × ChainCache) (n : ℕ)
    → Outcome h log key type value c r
    → r ≡ (ok (true, n), c')
    → Chains h (log ++ (chained key type value ∷ [])) c'
stored-Chains h log key type value c c' r n (full at run) e = cc (run, e)
stored-Chains h log key type value c c' r n (long_key spare long run) e = cc (run, e)
stored-Chains h log key type value c c' r n (long_value spare short long run) e = cc (run, e)
stored-Chains h log key type value c c' r n (stored k d spare short run chains heap count) e =
    let same : d ≡ c' = cc (run, e) in
    subst (Chains h (log ++ (chained key type value ∷ []))) same chains

-- After a put that returned true, each key of a bucket chain cache answers by its first record, as before if
-- it had one; the put answers only for its own key, and only if that had none.
pub get_chain-put_chain :
    (h : Hasher) (log : List Chained) (c c' : ChainCache) (key : Bytes) (type : CacheValueType)
    (value : Bytes) (collisions : ℕ)
    → Chains h log c
    → IsHeap c.memory
    → length log < 2 ^ 32
    → c.memory.data_size + chained_size (chained key type value) + c.memory.real_data_size / 2
      < 2 ^ 64
    → put_chain h key type value c ≡ (ok (true, collisions), c')
    → (k : Bytes) (t : CacheValueType)
    → get_chain h k t c'
      ≡ ok (
        (chain_answer (first_after k (first_of k log) (chained key type value)) (type_code t)).0,
        (chain_answer (first_after k (first_of k log) (chained key type value)) (type_code t)).1,
        h.hash k,
      )
get_chain-put_chain h log c c' key type value n v w few room run k t =
    let chains =
      stored-Chains h log key type value c c' _ n
        (put_chain-Outcome h log c v w key type value few room) run in
    rw (sym (first_of-append k log (chained key type value)))
      (get_chain-chain_answer h _ c' chains k t).0
