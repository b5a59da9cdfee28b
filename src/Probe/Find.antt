-- ===== src/Probe/Find.antt =====
-- The two loops of the probe follow the walk of the table (LinearProbe.h, findKeySlotOffset and
-- findFreeKeySlotOffset).
use axon_cache.Prelude.{
  ℕ, zero, suc, ◌+◌, ◌*◌, ◌%◌, ◌^◌, ◌≤◌, ◌<◌, ◌≡◌, ltb, false, Option, none, some, Bytes,
  eq-bytes_eq, bit_and, u32, ok, arith,
}
use axon_cache.Ram.{Ram}
use axon_cache.Table.{Entry, Table, next, count, Walk, here, past, Stop, hit, miss, Search}
use axon_cache.Table.Walks.{empty_slot, search}
use axon_cache.Probe.{
  Probe, hashcode_mask, offset_mask, slot_at, next_slot, key_slot_to_ptr_offset, find_loop,
  find_key_slot_offset, find_free_loop, find_free_key_slot_offset,
}
use axon_cache.Probe.Holds.{Filled, Holds, slot_matches-eq}

-- What `find_key_slot_offset` answers where the walk stops.
abbrev pub found_at : Ram → Option Entry → ℕ → Option (ℕ × ℕ)
found_at m none j = none
found_at m (some e) j = some (key_slot_to_ptr_offset j, slot_at m j)

-- What `find_free_key_slot_offset` answers there, after `d` collisions.
abbrev pub free_at : Option Entry → ℕ → ℕ → Option ℕ × ℕ
free_at none j d = (some (key_slot_to_ptr_offset j), u32 d)
free_at (some e) j d = (none, u32 (d + 1))

module _ (hash : Bytes → ℕ) (p : Probe) (m : Ram) (end : ℕ) (t : Table)
    (held : Holds hash p m end t) (key_space : 8 * p.number_of_key_slots ≤ end) (k : Bytes) where
  abbrev pub slots : ℕ
  slots = p.number_of_key_slots

  abbrev pub bits : ℕ
  bits = bit_and (hash k) (hashcode_mask p)

  pub filled : (s : ℕ) (e : Entry) → s < slots → t s ≡ some e → Filled hash p m end e (slot_at m s)
  filled s e h at = rw at at (held s h)

  empty : (s : ℕ) → s < slots → t s ≡ none → bit_and (slot_at m s) (offset_mask p) ≡ 0
  empty s h at = rw at at (held s h)

  next-lt : (s : ℕ) → s < slots → next slots s < slots
  next-lt s h = ground arith

  readable : (s : ℕ) → s < slots → ltb end (8 * s + 8) ≡ false
  readable s h = ground (arith, key_space)

  find_loop-Walk :
      (fuel : ℕ) {s d j : ℕ}
      → Walk slots t k s d j
      → Stop t k j
      → s < slots
      → d < fuel
      → find_loop fuel p k bits end m s ≡ ok (found_at m (t j) j)
  unfolding find_loop next_slot
  find_loop-Walk zero w q h lt = absurd (omega arith)
  find_loop-Walk (suc fuel) {s = s} here (miss free) h lt =
      ground (arith, readable s h, free, empty s h free)
  find_loop-Walk (suc fuel) {s = s} here (hit e at same) h lt =
      let f = filled s e h at in
      ground (
        arith,
        at,
        readable s h,
        f.nonzero,
        slot_matches-eq hash p m end e (slot_at m s) k f,
        eq-bytes_eq e.key k same,
      )
  find_loop-Walk (suc fuel) {s = s} (past g w) q h lt =
      let f = filled s g.entry h g.taken in
      ground (
        arith,
        readable s h,
        f.nonzero,
        g.other,
        slot_matches-eq hash p m end g.entry (slot_at m s) k f,
        find_loop-Walk fuel w q (next-lt s h) (omega arith),
      )

  free_at-u32 :
      (o : Option Entry) (j c d : ℕ) → free_at o j (u32 (c + 1) + d) ≡ free_at o j (c + suc d)
  free_at-u32 none j c d = ground arith
  free_at-u32 (some e) j c d = ground arith

  -- The counter wraps around as the source's does.
  find_free_loop-Walk :
      (fuel : ℕ) {s d j : ℕ} (c : ℕ)
      → Walk slots t k s d j
      → Stop t k j
      → s < slots
      → d < fuel
      → c < 2 ^ 32
      → find_free_loop fuel p k bits end m s c ≡ ok (free_at (t j) j (c + d))
  unfolding find_free_loop next_slot
  find_free_loop-Walk zero c w q h lt small = absurd (omega arith)
  find_free_loop-Walk (suc fuel) {s = s} c here (miss free) h lt small =
      ground (arith, readable s h, free, empty s h free)
  find_free_loop-Walk (suc fuel) {s = s} c here (hit e at same) h lt small =
      let f = filled s e h at in
      ground (
        arith,
        at,
        readable s h,
        f.nonzero,
        slot_matches-eq hash p m end e (slot_at m s) k f,
        eq-bytes_eq e.key k same,
      )
  find_free_loop-Walk (suc fuel) {s = s} {d = suc d} {j = j} c (past g w) q h lt small =
      let f = filled s g.entry h g.taken in
      ground (
        arith,
        readable s h,
        f.nonzero,
        g.other,
        slot_matches-eq hash p m end g.entry (slot_at m s) k f,
        find_free_loop-Walk fuel (u32 (c + 1)) w q (next-lt s h) (omega arith) (omega arith),
        free_at-u32 (t j) j c d,
      )

  -- With one empty slot, a search ends within as many rounds as there are slots.
  pub table_search : count slots t < slots → Search slots t k (hash k % slots) slots
  table_search room =
      let (z, lt, free) = empty_slot slots t room in
      search slots t k z lt free slots (hash k % slots) (omega arith) (ground arith)

  -- The read probe answers for where the search stops.
  pub find-Search :
      (r : Search slots t k (hash k % slots) slots)
      → find_key_slot_offset p k (hash k) end m ≡ ok (found_at m (t r.target) r.target)
  unfolding find_key_slot_offset
  find-Search r =
      ground (arith, r.short, find_loop-Walk slots r.walk r.stop (omega (arith, r.short)) r.short)

  pub find_free-Search :
      (r : Search slots t k (hash k % slots) slots)
      → find_free_key_slot_offset p k (hash k) end m ≡ ok (free_at (t r.target) r.target r.steps)
  unfolding find_free_key_slot_offset
  find_free-Search r = ground (
    arith,
    r.short,
    find_free_loop-Walk slots 0 r.walk r.stop (omega (arith, r.short)) r.short (omega arith),
  )
