-- ===== src/Probe/Ends.antt =====
-- When the two loops of the probe end
-- (include/axoncache/cache/probe/LinearProbe.h, findKeySlotOffset and findFreeKeySlotOffset).
use axon_cache.Prelude.{
  ℕ, zero, suc, ◌+◌, ◌*◌, ◌%◌, ◌≤◌, ◌<◌, ◌≡◌, ◌≢◌, refl, ap, ◌∙◌, inl, inr, Bool, true, false,
  Bytes, bit_and, u32, diverges, undefined, Result, ok, ltb, ◌==◌, Bool-cases, Returns, arith,
  if◌then◌else◌,
}
use native.Mathlib.Nat.{mod-lt}
use axon_cache.Ram.{Ram}
use axon_cache.Table.{next}
use axon_cache.Table.Walks.{ahead, ahead-next}
use axon_cache.Probe.{
  Probe, hashcode_mask, offset_mask, slot_at, slot_matches, next_slot, find_loop,
  find_key_slot_offset, find_free_loop, find_free_key_slot_offset,
}

-- Whether the loops stop at the slot: it is free, or leads to a record with the key. They read beyond the
-- data if the slot or the record that they compare is not within its `size` bytes.
abbrev pub stop_at : Probe → Bytes → ℕ → ℕ → Ram → ℕ → Result Bool
stop_at p key hashcode size m i =
    if ltb size (8 * i + 8)
    then undefined
    else if bit_and (slot_at m i) (offset_mask p) == 0
    then ok true
    else slot_matches p key (bit_and hashcode (hashcode_mask p)) size m (slot_at m i)

module _ (p : Probe) (key : Bytes) (hashcode size : ℕ) (m : Ram) where
  abbrev slots : ℕ
  slots = p.number_of_key_slots

  abbrev cmp : ℕ
  cmp = bit_and hashcode (hashcode_mask p)

  abbrev stop : ℕ → Result Bool
  stop = stop_at p key hashcode size m

  abbrev pub IsWithin : Type 0
  IsWithin = (z : ℕ) → z < slots → Returns (stop z) (λ _. Unit {0})

  -- A round of the loops at a slot where they stop, and at one where they do not.
  module _ (fuel s c : ℕ) where
    round_end :
        stop s ≡ ok true
        → Returns (find_loop (suc fuel) p key cmp size m s) (λ _. Unit {0})
          × Returns (find_free_loop (suc fuel) p key cmp size m s c) (λ _. Unit {0})
    unfolding find_loop find_free_loop
    round_end e = elim (Bool-cases (ltb size (8 * s + 8))) [
      | inl beyond ↦ absurd (cc (rw beyond at e))
      | inr near ↦ elim (Bool-cases (bit_and (slot_at m s) (offset_mask p) == 0)) [
        | inl free ↦ rw (near, free) ((_, refl, tt), (_, refl, tt))
        | inr taken ↦
            let same : slot_matches p key cmp size m (slot_at m s) ≡ ok true =
              rw (near, taken) at e in
            rw (near, taken, same) ((_, refl, tt), (_, refl, tt))
      ]
    ]

    round_next :
        stop s ≡ ok false
        → (find_loop (suc fuel) p key cmp size m s ≡ find_loop fuel p key cmp size m (next slots s))
          × (find_free_loop (suc fuel) p key cmp size m s c
              ≡ find_free_loop fuel p key cmp size m (next slots s) (u32 (c + 1)))
    unfolding find_loop find_free_loop next_slot
    round_next e = elim (Bool-cases (ltb size (8 * s + 8))) [
      | inl beyond ↦ absurd (cc (rw beyond at e))
      | inr near ↦ elim (Bool-cases (bit_and (slot_at m s) (offset_mask p) == 0)) [
        | inl free ↦ absurd (cc (rw (near, free) at e))
        | inr taken ↦
            let other : slot_matches p key cmp size m (slot_at m s) ≡ ok false =
              rw (near, taken) at e in
            (rw (near, taken, other) refl, rw (near, taken, other) refl)
      ]
    ]

  loops_end :
      IsWithin
      → (z : ℕ) → z < slots
      → stop z ≡ ok true
      → (fuel s c : ℕ) → s < slots
      → ahead slots s z < fuel
      → Returns (find_loop fuel p key cmp size m s) (λ _. Unit {0})
        × Returns (find_free_loop fuel p key cmp size m s c) (λ _. Unit {0})
  loops_end within z inside stops zero s c lt near = absurd (omega arith)
  loops_end within z inside stops (suc fuel) s c lt near =
      let (b, e, _) = within s lt in
      elim (Bool-cases b) [
        | inl one ↦ round_end fuel s c (rw one at e)
        | inr zero_bit ↦
            let on : stop s ≡ ok false = rw zero_bit at e in
            let elsewhere : s ≢ z = λ same. cc (ap stop same, on, stops) in
            let step = ahead-next slots s z lt inside elsewhere in
            let (first, second) = round_next fuel s c on in
            rw (first, second)
              (loops_end within z inside stops fuel (next slots s) (u32 (c + 1)) step.1
                (omega arith))
      ]

  loops_on :
      ((z : ℕ) → z < slots → stop z ≡ ok false)
      → (fuel s c : ℕ) → s < slots
      → (find_loop fuel p key cmp size m s ≡ diverges)
        × (find_free_loop fuel p key cmp size m s c ≡ diverges)
  unfolding find_loop find_free_loop
  loops_on never zero s c lt = (refl, refl)
  loops_on never (suc fuel) s c lt =
      let (one, two) = round_next fuel s c (never s lt) in
      let (on, on_free) = loops_on never fuel (next slots s) (u32 (c + 1)) (ground arith) in
      (one ∙ on, two ∙ on_free)

  -- Over a key space of at least one slot, where the slots and the records that the loops compare for the
  -- key stand within the data, both probe loops end if some slot is free or leads to a record with the key,
  -- and run for ever if there is none.
  pub find_key_slot_offset-stop_at :
      1 ≤ slots
      → IsWithin
      → ((z : ℕ)
          → z < slots
          → stop z ≡ ok true
          → Returns (find_key_slot_offset p key hashcode size m) (λ _. Unit {0})
            × Returns (find_free_key_slot_offset p key hashcode size m) (λ _. Unit {0}))
        × (((z : ℕ) → z < slots → stop z ≡ ok false)
            → (find_key_slot_offset p key hashcode size m ≡ diverges)
              × (find_free_key_slot_offset p key hashcode size m ≡ diverges))
  unfolding find_key_slot_offset find_free_key_slot_offset
  find_key_slot_offset-stop_at pos within =
      let filled : (slots == 0) ≡ false = ground arith in
      let begin : hashcode % slots < slots = mod-lt hashcode (omega arith) in
      rw filled (
        λ z inside stops.
            loops_end within z inside stops slots (hashcode % slots) 0 begin (ground arith),
        λ never. loops_on never slots (hashcode % slots) 0 begin,
      )
