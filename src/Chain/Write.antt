-- ===== src/Chain/Write.antt =====
-- The record that `addToEnd` writes, and `add` as a whole
-- (src/axoncache/cache/value/ChainedValue.cpp).
use axon_cache.Prelude.{
  ℕ, ◌+◌, ◌*◌, ◌/◌, ◌^◌, ◌≤◌, ◌<◌, ◌≡◌, refl, sym, ap, subst, ◌∙◌, inl, inr, List, Bytes, length,
  bit_and, bit_or, u16, u32, ok, ltb, false, arith,
}
use axon_cache.Bits.{bit_and_low, bit_or_join}
use axon_cache.Ram.{Ram, load, store, copy, view}
use axon_cache.Ram.Laws.{load-Agree, view-Agree, store_frame, copy_frame, load-store, view-copy}
use axon_cache.Domain.{key_length_limit, value_length_limit}
use axon_cache.Memory.{Memory}
use axon_cache.Memory.Laws.{IsHeap, grow-Grown}
use axon_cache.Chain.{
  head_size, write_chained, add_chained_to_end, add_chained, end_of_chain, calculate_chained_size,
}
use axon_cache.Chain.Layout.{
  Chained, chained_size, total_size, StandsAt, StandsAt-Agree, next_in, last_in, last_in-cases,
  count_in, Linked, length-total_size,
}
use axon_cache.Chain.Walks.{end_of_chain-last_in}
use axon_cache.Chain.Append.{Appends}

-- A record whose parts fit their fields.
pub record Fits (r : Chained) : Type 0 where
  pub short_key : length r.key ≤ key_length_limit
  pub short_value : length r.value ≤ value_length_limit
  pub small_type : r.type < 2 ^ 8

word-join :
    (type size : ℕ)
    → type < 2 ^ 8
    → size < 2 ^ 24
    → bit_or (u32 (type * 2 ^ 24)) (bit_and size 16777215) ≡ type * 2 ^ 24 + size
word-join type size ht hs =
    let whole : 0 * 2 ^ 24 + size ≡ size = omega arith in
    let low : bit_and size 16777215 ≡ size =
      ap (λ (x : ℕ). bit_and x 16777215) (sym whole) ∙ bit_and_low 24 0 size hs in
    let high : u32 (type * 2 ^ 24) ≡ type * 2 ^ 24 = omega arith in
    rw (low, high) (bit_or_join 24 type size hs)

module _ (m : Ram) (a : ℕ) (r : Chained) (fits : Fits r) where
  abbrev written : Ram
  written = write_chained m a r.key r.type r.value

  linked_m : Ram
  linked_m = store 8 m a 0

  sized : Ram
  sized = store 2 linked_m (a + 8) (u16 (length r.key))

  word : ℕ
  word = bit_or (u32 (r.type * 2 ^ 24)) (bit_and (length r.value) 16777215)

  fielded : Ram
  fielded = store 4 sized (a + 10) word

  keyed : Ram
  keyed = copy fielded (a + head_size) r.key

  to_keyed : (x : ℕ) → x < a + head_size + length r.key → written x ≡ keyed x
  unfolding write_chained keyed fielded sized linked_m word
  to_keyed x h = copy_frame keyed _ r.value x (inl h)

  to_fielded : (x : ℕ) → x < a + head_size → written x ≡ fielded x
  unfolding keyed
  to_fielded x h = to_keyed x (omega arith) ∙ copy_frame fielded _ r.key x (inl h)

  to_sized : (x : ℕ) → x < a + 10 → written x ≡ sized x
  unfolding fielded
  to_sized x h = to_fielded x (omega arith) ∙ store_frame 4 sized _ _ x (inl h)

  to_linked : (x : ℕ) → x < a + 8 → written x ≡ linked_m x
  unfolding sized
  to_linked x h = to_sized x (omega arith) ∙ store_frame 2 linked_m _ _ x (inl h)

  pub write_chained_frame : (x : ℕ) → x < a → written x ≡ m x
  unfolding linked_m
  write_chained_frame x h = to_linked x (omega arith) ∙ store_frame 8 m a 0 x (inl h)

  pub write_chained-link : load 8 written a ≡ 0
  unfolding linked_m
  write_chained-link =
      load-Agree 8 written linked_m a (λ x lo hi. to_linked x hi) ∙ load-store 8 m a 0 (omega arith)

  read_key_size : load 2 sized (a + 8) ≡ length r.key
  unfolding sized
  read_key_size = load-store 2 linked_m (a + 8) _ (omega arith) ∙ omega (arith, fits.short_key)

  read_key : view keyed (a + head_size) (length r.key) ≡ r.key
  unfolding keyed
  read_key = view-copy fielded (a + head_size) r.key

  read_word : load 4 fielded (a + 10) ≡ r.type * 2 ^ 24 + length r.value
  unfolding fielded word
  read_word =
      let joined =
        word-join r.type (length r.value) fits.small_type (omega (arith, fits.short_value)) in
      load-store 4 sized (a + 10) _ (omega (arith, joined, fits.small_type, fits.short_value))
      ∙ joined

  read_value : view written (a + head_size + length r.key) (length r.value) ≡ r.value
  unfolding write_chained keyed fielded sized linked_m word
  read_value = view-copy keyed (a + head_size + length r.key) r.value

  pub write_chained-StandsAt : StandsAt written a r
  write_chained-StandsAt = record {
    type_bits = fits.small_type;
    size_bits = omega (arith, fits.short_value);
    key_size =
        load-Agree 2 written sized (a + 8) (λ x lo hi. to_sized x (omega arith)) ∙ read_key_size;
    word =
        load-Agree 4 written fielded (a + 10) (λ x lo hi. to_fielded x (omega arith)) ∙ read_word;
    key =
        view-Agree written keyed (a + head_size) (length r.key) (λ x lo hi. to_keyed x hi)
        ∙ read_key;
    value = read_value;
  }

-- The state of the memory that `add` starts from: the records of `log` stand behind the key space,
-- which ends at `a`, and the slot at `from` leads to those of its bucket.
module _ (bucket : Bytes → ℕ) (m : Memory) (from a : ℕ) (log : List Chained) (r : Chained)
    (is_heap : IsHeap m) (linked : Linked bucket m.bytes a log)
    (link : load 8 m.bytes from ≡ next_in bucket (bucket r.key) a log) (pos : from + 8 ≤ a)
    (end : m.data_size ≡ a + total_size log) where
  abbrev last : ℕ
  last = last_in bucket (bucket r.key) from a log

  last_inside : last + 8 ≤ m.data_size
  last_inside = elim (last_in-cases bucket (bucket r.key) from a log (omega arith)) [
    | inl (stays, ends) ↦ omega (arith, stays, end)
    | inr (lo, hi, more) ↦ omega (arith, hi, end)
  ]

  pub walked :
      length log < 2 ^ 32
      → end_of_chain (m.data_size + 1) m.bytes m.data_size from 0
        ≡ ok (last, 0 + count_in bucket (bucket r.key) log)
  walked few =
      end_of_chain-last_in bucket m.bytes m.data_size (m.data_size + 1) (bucket r.key) from a log 0
        link linked (omega arith) (omega (arith, end)) (omega (arith, end))
        (omega (arith, end, length-total_size log)) (omega arith)

  -- What `add` leaves: the record behind the data, linked to the end of its chain.
  pub record AddedTo (s : Memory) : Type 0 where
    pub heap : IsHeap s
    pub size : s.data_size ≡ m.data_size + chained_size r
    pub appends : Appends m.bytes s.bytes r last m.data_size

  pub add_chained-AddedTo :
      Fits r
      → length log < 2 ^ 32
      → m.data_size + chained_size r + m.real_data_size / 2 < 2 ^ 64
      → (s : Memory) × (add_chained from r.key r.type r.value m
          ≡ (ok (count_in bucket (bucket r.key) log), s))
        × AddedTo s
  unfolding add_chained add_chained_to_end
  add_chained-AddedTo fits few room =
      let sized : calculate_chained_size r.key r.value ≡ chained_size r =
        unfold calculate_chained_size in omega arith in
      let ((at, g), run, w) =
        grow-Grown m (calculate_chained_size r.key r.value) is_heap (omega (arith, sized)) in
      let written_at = write_chained g.bytes at r.key r.type r.value in
      let last_at : last + 8 ≤ at = omega (arith, last_inside, w.offset) in
      let apart : (x : ℕ) → at ≤ x → store 8 written_at last at x ≡ written_at x =
        λ x le. store_frame 8 written_at last at x (inr (omega arith)) in
      let plain : 0 + count_in bucket (bucket r.key) log ≡ count_in bucket (bucket r.key) log =
        omega arith in
      let short_key : ltb key_length_limit (length r.key) ≡ false =
        ground (arith, fits.short_key) in
      let short_value : ltb value_length_limit (length r.value) ≡ false =
        ground (arith, fits.short_value) in
      (
        record g { bytes = store 8 written_at last at },
        rw (walked few, short_key, short_value, run, plain) refl,
        record {
          heap = record { heap = w.valid.heap; fits = w.valid.fits };
          size = omega (arith, w.size, sized);
          appends = record {
            kept = λ x lt out.
                store_frame 8 written_at last at x out
                ∙ write_chained_frame g.bytes at r fits x (omega (arith, w.offset))
                ∙ ap (λ (b : Ram). b x) w.kept;
            linked = load-store 8 written_at last at (omega (arith, w.offset)) ∙ w.offset;
            stands =
                subst (λ (e : ℕ). StandsAt (store 8 written_at last at) e r) w.offset
                  (StandsAt-Agree written_at (store 8 written_at last at) at r
                    (write_chained-StandsAt g.bytes at r fits) (λ x lo hi. apart x (omega arith)));
            no_next =
                subst (λ (e : ℕ). load 8 (store 8 written_at last at) e ≡ 0) w.offset
                  (load-Agree 8 (store 8 written_at last at) written_at at (λ x lo hi. apart x lo)
                    ∙ write_chained-link g.bytes at r fits);
          };
        },
      )
