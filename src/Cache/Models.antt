-- ===== src/Cache/Models.antt =====
-- The abstract view of a cache, a partial map from keys to records, and what every lookup does with
-- it (src/axoncache/cache/base/HashedCacheBase.cpp).
use axon_cache.Prelude.{
  ℕ, ◌*◌, ◌%◌, ◌≤◌, ◌<◌, ◌≡◌, sym, ap, ◌∙◌, inl, inr, Option, none, some, Bytes, ok, arith,
  Option-cases,
}
use axon_cache.Ram.{Ram}
use axon_cache.Memory.Laws.{IsHeap}
use axon_cache.Table.{Entry, Table, count, Stop, hit, miss, Search, Reaches}
use axon_cache.Table.Walks.{Walk-unique}
use axon_cache.Probe.{Probe, slot_at, key_slot_to_ptr_offset}
use axon_cache.Probe.Holds.{Filled, Holds}
use axon_cache.Probe.Find.{table_search, find-Search, filled}
use axon_cache.Value.Slot.{IsProbe}
use axon_cache.Cache.{Cache, Hasher, probe_key}

abbrev pub Map : Type 0
Map = Bytes → Option Entry

-- The bytes hold exactly the records of `f`, each where a search for its key ends, with a slot to
-- spare.
pub record Represents (h : Hasher) (f : Map) (p : Probe) (m : Ram) (end entries : ℕ) : Type 0 where
  pub probe : IsProbe p
  pub above : 8 * p.number_of_key_slots ≤ end
  pub table : Table
  pub held : Holds h.hash p m end table
  pub reaches : Reaches h.hash p.number_of_key_slots table
  pub counted : count p.number_of_key_slots table ≡ entries
  pub room : entries < p.number_of_key_slots
  pub sound : (i : ℕ) (e : Entry) → i < p.number_of_key_slots → table i ≡ some e → f e.key ≡ some e
  pub complete :
      (k : Bytes) (e : Entry)
      → f k ≡ some e
      → (i : ℕ) × (i < p.number_of_key_slots) × (table i ≡ some e) × (e.key ≡ k)

-- The cache represents `f`, and `mKeySpacePtr` points into its current block.
pub record Models (h : Hasher) (f : Map) (c : Cache) : Type 0 where
  pub rep : Represents h f c.probe c.memory.bytes c.memory.data_size c.number_of_entries
  pub open rep use *
  pub fresh : c.key_space_block ≡ c.memory.block

-- A cache that can grow.
pub record IsWritable (c : Cache) : Type 0 where
  pub heap : IsHeap c.memory
  pub capped : c.max_number_of_entries < c.probe.number_of_key_slots

module _ (h : Hasher) (f : Map) (c : Cache) (v : Models h f c) (k : Bytes) where
  abbrev pub n : ℕ
  n = c.probe.number_of_key_slots

  pub found : Search n v.table k (h.hash k % n) n
  found =
      table_search h.hash c.probe c.memory.bytes c.memory.data_size v.table v.held v.above k
        (omega (arith, v.counted, v.room))

  pub at_target : f k ≡ v.table found.target
  at_target = go found.stop
    where
      go : Stop v.table k found.target → f k ≡ v.table found.target
      go (hit e at same) = ap f (sym same) ∙ v.sound found.target e found.inside at ∙ sym at
      go (miss free) = elim (Option-cases (f k)) [
        | inl e ↦ e ∙ sym free
        | inr (e, at) ↦
            let (i, lt, held, same) = v.complete k e at in
            let (d, w) = v.reaches i e lt held in
            let one : i ≡ found.target =
              Walk-unique (rw same at w) (hit e held same) found.walk (miss free) in
            absurd (cc (ap v.table one, held, free))
      ]

  -- The read probe finds the record of a key that the map has, in a filled slot.
  pub record Located (e : Entry) : Type 0 where
    pub slot : ℕ
    pub in_table :
        Filled h.hash c.probe c.memory.bytes c.memory.data_size e (slot_at c.memory.bytes slot)
    pub offset : key_slot_to_ptr_offset slot ≡ 8 * slot
    pub found :
        probe_key h k c
        ≡ ok (c.memory.bytes, some (key_slot_to_ptr_offset slot, slot_at c.memory.bytes slot))

  pub probe_key-present : (e : Entry) → f k ≡ some e → Located e
  unfolding probe_key key_slot_to_ptr_offset
  probe_key-present e at =
      let here : v.table found.target ≡ some e = sym at_target ∙ at in
      record {
        slot = found.target;
        in_table =
            filled h.hash c.probe c.memory.bytes c.memory.data_size v.table v.held v.above k
              found.target e found.inside here;
        offset = omega (arith, found.inside, v.probe.addressable);
        found = ground (
          arith,
          v.fresh,
          here,
          find-Search h.hash c.probe c.memory.bytes c.memory.data_size v.table v.held v.above k
              found,
        );
      }

  -- It finds nothing else.
  pub probe_key-absent : f k ≡ none → probe_key h k c ≡ ok (c.memory.bytes, none)
  unfolding probe_key
  probe_key-absent at =
      let here : v.table found.target ≡ none = sym at_target ∙ at in
      ground (
        arith,
        v.fresh,
        here,
        find-Search h.hash c.probe c.memory.bytes c.memory.data_size v.table v.held v.above k found,
      )
