-- ===== src/Cache/Step.antt =====
-- One `putInternal`, over the way in which the value is added
-- (src/axoncache/cache/base/HashedCacheBase.cpp).
use axon_cache.Prelude.{
  ℕ, ◌+◌, ◌*◌, ◌^◌, ◌≤◌, ◌<◌, ◌≡◌, refl, sym, ◌∙◌, none, some, Bytes, ok, throw, true, false, u64,
  u32, max, Result, arith, Error, key_space_is_full,
}
use axon_cache.Memory.{Memory}
use axon_cache.Table.{Entry}
use axon_cache.Probe.{key_slot_to_ptr_offset}
use axon_cache.Probe.Find.{find_free-Search}
use axon_cache.Value.Write.{IsEntry}
use axon_cache.Value.Add.{entry_size, Added}
use axon_cache.Value.Slot.{offset_of}
use axon_cache.Cache.{Cache, Hasher, put_with, finish_put}
use axon_cache.Cache.Models.{Models, Map, IsWritable, found, at_target}
use axon_cache.Cache.Put.{insert, put-Represents}

module _ (h : Hasher) (f : Map) (c : Cache) (v : Models h f c) (k : Bytes) where
  abbrev pub target : ℕ
  target = (found h f c v k).target

  abbrev pub steps : ℕ
  steps = (found h f c v k).steps

  module _ (add : ℕ → Memory → Result ℕ × Memory) where
    -- At the limit, nothing is done.
    pub put_with_full :
        c.max_number_of_entries ≤ c.number_of_entries
        → put_with h k add c ≡ (throw key_space_is_full, c)
    unfolding put_with
    put_with_full full = ground arith

    module _ (spare : c.number_of_entries < c.max_number_of_entries) where
      -- A key that is there stays with its value.
      pub put_with_old :
          (e : Entry) → f k ≡ some e → put_with h k add c ≡ (ok (false, u32 (steps + 1)), c)
      unfolding put_with
      put_with_old e at = ground (
        arith,
        v.fresh,
        sym (at_target h f c v k) ∙ at,
        find_free-Search h.hash c.probe c.memory.bytes c.memory.data_size v.table v.held v.above k
            (found h f c v k),
      )

      -- A new key goes to `add` with the empty slot where its search ended.
      pub put_with_new :
          f k ≡ none
          → put_with h k add c ≡ finish_put add c (some (key_slot_to_ptr_offset target), u32 steps)
      unfolding put_with
      put_with_new at = ground (
        arith,
        v.fresh,
        sym (at_target h f c v k) ∙ at,
        find_free-Search h.hash c.probe c.memory.bytes c.memory.data_size v.table v.held v.above k
            (found h f c v k),
      )

      -- An exception of `add` goes on, over the memory that `add` leaves.
      pub put_with_throw :
          (x : Error) (s : Memory)
          → f k ≡ none
          → add (key_slot_to_ptr_offset target) c.memory ≡ (throw x, s)
          → put_with h k add c ≡ (throw x, record c { memory = s })
      unfolding finish_put
      put_with_throw x s new run = put_with_new new ∙ rw run

  -- The cache after a record was added at the memory `s`.
  abbrev pub stored_cache : Memory → Cache
  stored_cache s = record c {
    memory = s;
    key_space_block = s.block;
    max_collisions = max (max (u32 steps) 0) c.max_collisions;
    number_of_entries = u64 (c.number_of_entries + 1);
  }

pub target_offset :
    (h : Hasher) (f : Map) (c : Cache) (v : Models h f c) (k : Bytes)
    → key_slot_to_ptr_offset (target h f c v k) ≡ 8 * target h f c v k
unfolding key_slot_to_ptr_offset
target_offset h f c v k = omega (arith, (found h f c v k).inside, v.probe.addressable)

module _ (h : Hasher) (f : Map) (c : Cache) (v : Models h f c) (w : IsWritable c) (e : Entry) where
  abbrev pub offset : ℕ
  offset = key_slot_to_ptr_offset (target h f c v e.key)

  module _ (new : f e.key ≡ none) (spare : c.number_of_entries < c.max_number_of_entries)
      (s : Memory) where
    pub put_with_stored :
        (add : ℕ → Memory → Result ℕ × Memory)
        → add offset c.memory ≡ (ok 0, s)
        → put_with h e.key add c
          ≡ (ok (true, max (u32 (steps h f c v e.key)) 0), stored_cache h f c v e.key s)
    unfolding finish_put
    put_with_stored add run = put_with_new h f c v e.key add spare new ∙ rw run

    pub stored-Models :
        IsEntry e
        → c.memory.data_size + entry_size e < 2 ^ 64
        → offset_of c.probe c.memory.data_size < 2 ^ c.probe.offset_bits
        → Added c.probe offset (h.hash e.key) c.memory e s
        → Models h (insert f e) (stored_cache h f c v e.key s)
    stored-Models fits room offset_fits added =
        let r = found h f c v e.key in
        let free : v.table r.target ≡ none = sym (at_target h f c v e.key) ∙ new in
        let more : u64 (c.number_of_entries + 1) ≡ c.number_of_entries + 1 =
          omega (arith, v.room, v.probe.addressable) in
        record {
          rep =
              rw (added.bytes, added.size, target_offset h f c v e.key)
                (rw more (
                  put-Represents h f c v e fits r.target r.inside room offset_fits new r.steps
                    r.walk free (omega (arith, w.capped))));
          fresh = refl;
        }

    pub stored-IsWritable :
        Added c.probe offset (h.hash e.key) c.memory e s → IsWritable (stored_cache h f c v e.key s)
    stored-IsWritable added = record { heap = added.heap; capped = w.capped }
