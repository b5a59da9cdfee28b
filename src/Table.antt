-- ===== src/Table.antt =====
-- The key space as a table of entries: what linear probing (include/axoncache/cache/probe/
-- LinearProbe.h) keeps true of where the entries stand, with the bytes left out.
pub mod Walks
pub mod Insert
use axon_cache.Prelude.{
  ℕ, zero, suc, ◌+◌, ◌%◌, ◌<◌, ◌≡◌, ◌≢◌, Option, none, some, false, ◌==◌, if◌then◌else◌, Bytes,
  bytes_eq, length,
}

-- One record of the data space: the fields of LinearProbeRecord and the bytes behind the key.
pub record Entry : Type 0 where
  pub key : Bytes
  pub dedup : ℕ
  pub type : ℕ
  pub val_size : ℕ
  pub payload : Bytes

abbrev pub Table : Type 0
Table = ℕ → Option Entry

abbrev pub next : ℕ → ℕ → ℕ
next n s = if s + 1 == n then 0 else s + 1

abbrev pub put_at : Table → ℕ → Entry → Table
put_at t j e i = if i == j then some e else t i

abbrev pub occupied : Option Entry → ℕ
occupied none = 0
occupied (some e) = 1

abbrev pub count : ℕ → Table → ℕ
count zero t = 0
count (suc n) t = count n t + occupied (t n)

-- The slot is taken by another key.
pub record Passes (t : Table) (k : Bytes) (s : ℕ) : Type 0 where
  pub entry : Entry
  pub taken : t s ≡ some entry
  pub other : bytes_eq entry.key k ≡ false

-- Probing for `k` in `n` slots goes from `s` to `j` in `d` steps, past other keys.
pub data Walk (n : ℕ) (t : Table) (k : Bytes) : ℕ → ℕ → ℕ → Type 0 where
  here : {s : ℕ} → Walk n t k s zero s
  past : {s d j : ℕ} → Passes t k s → Walk n t k (next n s) d j → Walk n t k s (suc d) j

-- The walk stops at an entry with the key, or at an empty slot.
pub data Stop (t : Table) (k : Bytes) (j : ℕ) : Type 0 where
  hit : (e : Entry) → t j ≡ some e → e.key ≡ k → Stop t k j
  miss : t j ≡ none → Stop t k j

-- A walk of fewer than `fuel` steps that stops.
pub record Search (n : ℕ) (t : Table) (k : Bytes) (s fuel : ℕ) : Type 0 where
  pub steps : ℕ
  pub target : ℕ
  pub short : steps < fuel
  pub inside : target < n
  pub walk : Walk n t k s steps target
  pub stop : Stop t k target

-- Every entry is where a search for its key ends.
abbrev pub Reaches : (Bytes → ℕ) → ℕ → Table → Type 0
Reaches hash n t =
    (i : ℕ) (e : Entry) → i < n → t i ≡ some e → (d : ℕ) × Walk n t e.key (hash e.key % n) d i
