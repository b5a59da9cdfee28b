-- ===== src/Chain/Lookup.antt =====
-- The lookups of a bucket chain cache answer by the first record with the key
-- (include/axoncache/cache/base/HashedCacheBase.h over src/axoncache/cache/value/ChainedValue.cpp).
use axon_cache.Prelude.{
  ℕ, ◌+◌, ◌*◌, ◌/◌, ◌%◌, ◌^◌, ◌≡◌, refl, sym, ap, ◌∙◌, inl, inr, Option, none, some, List, [], ◌∷◌,
  Bytes, length, ok, Bool, true, false, arith, ◌==◌, if◌then◌else◌, Bool-cases, bytes_eq,
  bytes_eq-eq, bit_and,
}
use axon_cache.Bits.{bit_and_low}
use axon_cache.Ram.{Ram, load}
use axon_cache.Domain.{CacheValueType, type_code}
use axon_cache.Cache.{Hasher}
use axon_cache.Chain.{
  ChainCache, chained_value, find_in_chain, get_chained, contains_chained, get_chain,
  contains_chain, is_some, chain_space,
}
use axon_cache.Chain.Layout.{Chained, chained_size, Linked, length-total_size}
use axon_cache.Chain.Walks.{first_of, address_of, find_in_chain-address_of}
use axon_cache.Chain.Models.{
  Chains, bucket_of, base, find_slot_offset-bucket_of, start_link, some_slots,
}

-- What a lookup says of the first record with the key.
abbrev pub chain_answer : Option Chained → ℕ → Bytes × Bool
chain_answer none type = ([], false)
chain_answer (some r) type = if r.type == type then (r.value, true) else ([], false)

abbrev pub has_record : Option Chained → Bool
has_record none = false
has_record (some r) = true

-- The address that the walk finds is that of the first record with the key.
chained_value-first_of :
    (bucket : Bytes → ℕ) (m : Ram) (key : Bytes) (type a : ℕ) (rs : List Chained)
    → Linked bucket m a rs
    → (chained_value m key type (address_of key a rs) ≡ chain_answer (first_of key rs) type)
      × (is_some (address_of key a rs) ≡ has_record (first_of key rs))
unfolding chained_value
chained_value-first_of bucket m key type a [] linked = (refl, refl)
chained_value-first_of bucket m key type a (r ∷ rs) (s, next, linked) =
    elim (Bool-cases (bytes_eq r.key key)) [
      | inl same ↦
          let one : length key ≡ length r.key =
            ap (λ (k : Bytes). length k) (sym (bytes_eq-eq r.key key same)) in
          let type_read : load 4 m (a + 10) / 2 ^ 24 % 2 ^ 8 ≡ r.type =
            omega (arith, s.word, s.type_bits, s.size_bits) in
          let size_read : bit_and (load 4 m (a + 10)) 16777215 ≡ length r.value =
            ap (λ (x : ℕ). bit_and x 16777215) s.word
            ∙ bit_and_low 24 r.type (length r.value) s.size_bits in
          rw same (rw (type_read, size_read, one, s.value) (ground arith), refl)
      | inr other ↦
          rw other (chained_value-first_of bucket m key type (a + chained_size r) rs linked)
    ]

module _ (h : Hasher) (log : List Chained) (c : ChainCache) (v : Chains h log c) (key : Bytes) where
  fresh_space : chain_space c ≡ ok c.memory.bytes
  unfolding chain_space
  fresh_space = ground (arith, v.fresh)

  found :
      find_in_chain
        (c.memory.data_size + 1)
        c.memory.bytes
        c.memory.data_size
        (load 8 c.memory.bytes (8 * bucket_of h c key))
        key
      ≡ ok (address_of key (base c) log)
  found = rw (start_link h log c v key) (
      find_in_chain-address_of (bucket_of h c) c.memory.bytes c.memory.data_size
        (c.memory.data_size + 1) key (base c) log v.linked (omega (arith, some_slots h log c v))
        (omega (arith, v.end)) (omega (arith, v.end, length-total_size log)))

  -- In a bucket chain cache that holds the records of `log`, `getInternal` and `contains` end normally.
  -- `getInternal` answers the value of the first record with the key, and that it exists, if that record
  -- has the type that is asked for, and the empty string else; `contains` answers whether there is a record
  -- with the key. Both report the hash of the key in any case.
  pub get_chain-chain_answer :
      (type : CacheValueType)
      → (get_chain h key type c
          ≡ ok (
            (chain_answer (first_of key log) (type_code type)).0,
            (chain_answer (first_of key log) (type_code type)).1,
            h.hash key,
          ))
        × (contains_chain h key c ≡ ok (has_record (first_of key log), h.hash key))
  unfolding get_chain contains_chain get_chained contains_chained
  get_chain-chain_answer type =
      let (value, there) =
        chained_value-first_of (bucket_of h c) c.memory.bytes key (type_code type) (base c) log
          v.linked in
      (
        rw (fresh_space, find_slot_offset-bucket_of h log c v key, found, value) refl,
        rw (fresh_space, find_slot_offset-bucket_of h log c v key, found, there) refl,
      )
