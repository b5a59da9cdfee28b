-- ===== src/Value/Slot.antt =====
-- The slot that an `add` fills: the high bits of the hash code over the offset of the record
-- (src/axoncache/cache/value/LinearProbeValue.cpp).
use axon_cache.Prelude.{
  ℕ, ◌+◌, ◌-◌, ◌*◌, ◌/◌, ◌%◌, ◌^◌, ◌≤◌, ◌<◌, ◌≡◌, ◌≢◌, sym, ap, ◌∙◌, bit_and, bit_or, arith,
}
use native.Mathlib.Nat.{one-le-pow, div-add-mod}
use axon_cache.Bits.{bit_and_high, bit_and_low, bit_or_join, bit_and_idem, bit_and-le, pow-split}
use axon_cache.Probe.{Probe, hashcode_mask, offset_mask, keyspace_size_offset, record_address}

-- A probe that the constructor accepts, over a key space that can be addressed.
pub record IsProbe (p : Probe) : Type 0 where
  pub enough_bits : 16 ≤ p.offset_bits
  pub few_bits : p.offset_bits ≤ 38
  pub slots : 1 ≤ p.number_of_key_slots
  pub addressable : p.number_of_key_slots * 8 < 2 ^ 64

-- The offset that a record at `a` gets in a slot.
abbrev pub offset_of : Probe → ℕ → ℕ
offset_of p a = (a + 2 ^ 64 - keyspace_size_offset p) % 2 ^ 64

abbrev pub slot_value : Probe → ℕ → ℕ → ℕ
slot_value p hashcode offset = bit_or (bit_and hashcode (hashcode_mask p)) offset

-- A block of `k` that starts at most at the one with `h` ends where the range of `h` does.
block_end : (h k l q off : ℕ) → q ≤ h / k → off < k → h < k * l → q * k + off < k * l
block_end h k l q off le lt inside = let below : h / k < l = grind arith in grind arith

module _ (p : Probe) (v : IsProbe p) where
  abbrev K : ℕ
  K = 2 ^ p.offset_bits

  abbrev M : ℕ
  M = (2 ^ 64 - 1) / K

  one-le-K : 1 ≤ K
  one-le-K = one-le-pow p.offset_bits 2 (omega arith)

  mask_eq : hashcode_mask p ≡ M * K
  unfolding hashcode_mask
  mask_eq = omega (arith, div-add-mod (2 ^ 64 - 1) K)

  -- The hash bits are a multiple of the offsets' range.
  high : (h : ℕ) → bit_and h (hashcode_mask p) ≡ bit_and (h / K) M * K
  high h = rw mask_eq (
      ap (λ (x : ℕ). bit_and x (M * K)) (omega (arith, div-add-mod h K))
      ∙ bit_and_high p.offset_bits (h / K) (h % K) M (omega (arith, one-le-K)))

  module _ (h off : ℕ) (fits : off < 2 ^ p.offset_bits) where
    joined : slot_value p h off ≡ bit_and (h / K) M * K + off
    joined = rw (high h) (bit_or_join p.offset_bits _ off fits)

    pub slot_value-offset : bit_and (slot_value p h off) (offset_mask p) ≡ off
    unfolding offset_mask
    slot_value-offset = rw joined (bit_and_low p.offset_bits _ off fits)

    pub slot_value-hash :
        bit_and (slot_value p h off) (hashcode_mask p) ≡ bit_and h (hashcode_mask p)
    slot_value-hash =
        rw (joined, mask_eq)
          (bit_and_high p.offset_bits (bit_and (h / K) M) off M fits
            ∙ ap (λ (x : ℕ). x * K) (bit_and_idem (h / K) M)
            ∙ sym (high h)
            ∙ ap (bit_and h) mask_eq)

    pub slot_value-lt : h < 2 ^ 64 → slot_value p h off < 2 ^ 64
    slot_value-lt lt =
        let top : 2 ^ 64 ≡ K * 2 ^ (64 - p.offset_bits) =
          pow-split p.offset_bits (64 - p.offset_bits) 64 (omega (arith, v.few_bits)) in
        let end =
          block_end h K (2 ^ (64 - p.offset_bits)) _ off (bit_and-le (h / K) M) fits
            (omega (arith, top)) in
        rw joined (omega (arith, end, top))

  module _ (a : ℕ) (above : 8 * p.number_of_key_slots ≤ a) (small : a < 2 ^ 64) where
    pub offset_of_lem : offset_of p a + p.number_of_key_slots * 8 ≡ a + 8
    unfolding keyspace_size_offset
    offset_of_lem = omega (arith, v.slots, v.addressable)

    -- The check that `add` makes.
    pub masked-fits : bit_and (offset_of p a) (offset_mask p) ≡ offset_of p a → offset_of p a < K
    unfolding offset_mask
    masked-fits e =
        let low =
          bit_and_low p.offset_bits (offset_of p a / K) (offset_of p a % K)
            (omega (arith, one-le-K)) in
        let whole : offset_of p a / K * K + offset_of p a % K ≡ offset_of p a =
          omega (arith, div-add-mod (offset_of p a) K) in
        omega (arith, one-le-K, ap (λ (x : ℕ). bit_and x (K - 1)) whole, low, e)

    pub fits-masked : offset_of p a < K → bit_and (offset_of p a) (offset_mask p) ≡ offset_of p a
    unfolding offset_mask
    fits-masked h =
        ap (λ (x : ℕ). bit_and x (K - 1)) (omega arith)
        ∙ bit_and_low p.offset_bits 0 (offset_of p a) h

    module _ (h : ℕ) (fits : offset_of p a < K) where
      pub record_address-slot_value : record_address p (slot_value p h (offset_of p a)) ≡ a
      unfolding record_address
      record_address-slot_value =
          rw (slot_value-offset h (offset_of p a) fits)
            (unfold keyspace_size_offset in omega (arith, offset_of_lem, v.slots, v.addressable))

      pub slot_value-nonzero : bit_and (slot_value p h (offset_of p a)) (offset_mask p) ≢ 0
      slot_value-nonzero e =
          omega (arith, slot_value-offset h (offset_of p a) fits, offset_of_lem, v.slots)
