-- ===== src/Value/Write.antt =====
-- A record that `write_record` writes reads back field by field, and only its own bytes change
-- (src/axoncache/cache/value/LinearProbeValue.cpp, both `addToEnd`).
use axon_cache.Prelude.{ℕ, ◌+◌, ◌*◌, ◌%◌, ◌^◌, ◌≤◌, ◌<◌, ◌≡◌, ◌∙◌, inl, length, u16, arith}
use axon_cache.Ram.{Ram, load, store, copy, view}
use axon_cache.Ram.Laws.{load-Agree, view-Agree, store_frame, copy_frame, load-store, view-copy}
use axon_cache.Table.{Entry}
use axon_cache.Probe.{Probe, record_size, key_size_at, dedup_index_at, type_at, val_size_at}
use axon_cache.Probe.Holds.{Stored}
use axon_cache.Value.{write_record}

-- An entry that fits the fields of the packed record.
pub record IsEntry (e : Entry) : Type 0 where
  pub short_key : length e.key < 2 ^ 16
  pub dedup_bits : e.dedup < 2 ^ 5
  pub type_bits : e.type < 2 ^ 3
  pub val_size_bits : e.val_size < 2 ^ 24

abbrev pub write_entry : Ram → ℕ → Entry → Ram
write_entry m a e = write_record m a e.key e.dedup e.type e.val_size e.payload

module _ (m : Ram) (a : ℕ) (e : Entry) where
  word : ℕ
  word = e.dedup % 2 ^ 5 + e.type % 2 ^ 3 * 2 ^ 5 + e.val_size % 2 ^ 24 * 2 ^ 8

  sized : Ram
  sized = store 2 m a (u16 (length e.key))

  fielded : Ram
  fielded = store 4 sized (a + 2) word

  keyed : Ram
  keyed = copy fielded (a + record_size) e.key

  pub write_entry_frame : (x : ℕ) → x < a → write_entry m a e x ≡ m x
  unfolding write_record
  write_entry_frame x h =
      copy_frame _ _ e.payload x (inl (omega arith))
      ∙ copy_frame _ _ e.key x (inl (omega arith))
      ∙ store_frame 4 _ _ _ x (inl (omega arith))
      ∙ store_frame 2 m a _ x (inl h)

  to_keyed : (x : ℕ) → x < a + record_size + length e.key → write_entry m a e x ≡ keyed x
  unfolding write_record keyed fielded sized word
  to_keyed x h = copy_frame _ _ e.payload x (inl h)

  to_fielded : (x : ℕ) → x < a + record_size → write_entry m a e x ≡ fielded x
  unfolding keyed
  to_fielded x h = to_keyed x (omega arith) ∙ copy_frame _ _ e.key x (inl h)

  to_sized : (x : ℕ) → x < a + 2 → write_entry m a e x ≡ sized x
  unfolding fielded
  to_sized x h = to_fielded x (omega arith) ∙ store_frame 4 _ _ _ x (inl h)

  module _ (fits : IsEntry e) where
    read_key_size : key_size_at (write_entry m a e) a ≡ length e.key
    unfolding key_size_at sized
    read_key_size =
        load-Agree 2 _ sized a (λ x lo hi. to_sized x hi)
        ∙ load-store 2 m a _ (omega arith)
        ∙ omega (arith, fits.short_key)

    read_word : load 4 (write_entry m a e) (a + 2) ≡ word
    unfolding fielded word
    read_word =
        load-Agree 4 _ fielded (a + 2) (λ x lo hi. to_fielded x (omega arith))
        ∙ load-store 4 sized (a + 2) _ (omega arith)

    pub write_entry-Stored :
        (p : Probe) (end : ℕ)
        → 8 * p.number_of_key_slots ≤ a
        → a + record_size + length e.key + length e.payload ≤ end
        → Stored p (write_entry m a e) end e a
    unfolding dedup_index_at type_at val_size_at word keyed fielded sized
    write_entry-Stored p end above inside = record {
      above = above;
      inside = inside;
      key_size = read_key_size;
      dedup = omega (arith, read_word, fits.dedup_bits);
      type = omega (arith, read_word, fits.type_bits, fits.dedup_bits);
      val_size = omega (arith, read_word, fits.val_size_bits, fits.type_bits, fits.dedup_bits);
      key =
          view-Agree _ keyed (a + record_size) (length e.key) (λ x lo hi. to_keyed x hi)
          ∙ view-copy fielded (a + record_size) e.key;
      payload = read_payload;
    }
      where
        read_payload :
            view (write_entry m a e) (a + record_size + length e.key) (length e.payload) ≡ e.payload
        read_payload =
            unfold write_record in view-copy keyed (a + record_size + length e.key) e.payload
