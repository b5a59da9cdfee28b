-- ===== src/Build/Lines.antt =====
-- Filling a linear probe cache from lines (src/axoncache/reader/DataFileReader.cpp,
-- src/axoncache/consumer/CacheValueConsumer.cpp): every line is consumed, and of the values that a key
-- has in the lines the cache keeps the first.
use axon_cache.Prelude.{
  ℕ, ◌+◌, ◌*◌, ◌^◌, ◌≤◌, ◌<◌, ◌≡◌, refl, ap, subst, ◌∙◌, inl, inr, Option, none, some, Bool, true,
  false, List, [], ◌∷◌, Bytes, Result, ok, throw, undefined, diverges, u64, length, bytes_eq,
  bytes_eq-eq, or_else, Bool-cases, Option-cases, if◌then◌else◌, arith,
}
use mathlib.Core.Path.{fun_ext}
use axon_cache.Domain.{CacheValueType, type_code, key_length_limit, value_length_limit}
use axon_cache.Probe.{record_size}
use axon_cache.Value.Add.{value_entry, entry_size, CanGrow}
use axon_cache.Value.Slot.{offset_of, offset_of_lem}
use axon_cache.Cache.{Cache, Hasher}
use axon_cache.Cache.Models.{IsWritable}
use axon_cache.Cache.Outcome.{
  full, exists, long_key, long_value, far_offset, stored, put_internal-Outcome,
}
use axon_cache.Typed.Values.{
  Typed, text, texts, flag, whole, real, reals, encode, IsTyped, IsEncoded, absent, text_stored,
  texts_stored, flag_stored, whole_stored, real_stored, reals_stored,
}
use axon_cache.Typed.Stored.{encode-IsEncoded}
use axon_cache.Typed.Linear.{Keeps, put_typed, put_value, put_value-Keeps}
use axon_cache.Parser.{CacheValueParser, parse_value}
use axon_cache.Build.{Put, consume_value, read_lines}

-- The first value of a key.
abbrev pub first_value : List (Bytes × Typed) → Bytes → Option Typed
first_value [] k = none
first_value ((key, value) ∷ pairs) k = if bytes_eq k key then some value else first_value pairs k

-- The values kept before win over those of the pairs.
abbrev pub then_first : (Bytes → Option Typed) → List (Bytes × Typed) → Bytes → Option Typed
then_first typed pairs k = or_else (typed k) (first_value pairs k)

abbrev encoded_length : Result (CacheValueType × Bytes) → ℕ
encoded_length (ok (type, str)) = length str
encoded_length (throw error) = 0
encoded_length undefined = 0
encoded_length diverges = 0

-- A value that the program can hold, and a key and an encoded value within their limits.
pub record Fits (pair : Bytes × Typed) : Type 0 where
  pub typed : IsTyped pair.1
  pub short_key : length pair.0 ≤ key_length_limit
  pub short_value : encoded_length (encode pair.1) ≤ value_length_limit

-- The bytes of the record of a pair.
abbrev pub record_length : Bytes × Typed → ℕ
record_length (key, value) = record_size + length key + encoded_length (encode value)

-- The bytes of the records of the pairs.
abbrev pub records_size : List (Bytes × Typed) → ℕ
records_size [] = 0
records_size ((key, value) ∷ pairs) = record_length (key, value) + records_size pairs

-- The lines are those of the pairs.
pub data Parsed (parser : CacheValueParser) : List Bytes → List (Bytes × Typed) → Type 0 where
  no_lines : Parsed parser [] []
  one_more :
      {lines : List Bytes}
      → {pairs : List (Bytes × Typed)} → (line : Bytes) (pair : Bytes × Typed)
      → parse_value parser line ≡ ok pair
      → Fits pair
      → Parsed parser lines pairs
      → Parsed parser (line ∷ lines) (pair ∷ pairs)

-- Room for `n` entries whose records take `size` bytes, with the data below `limit`.
pub record HasRoom (limit n size : ℕ) (c : Cache) : Type 0 where
  pub entries : c.number_of_entries + n ≤ c.max_number_of_entries
  pub space : c.memory.data_size + size ≤ limit
  pub capacity : c.memory.real_data_size ≤ 2 * limit
  pub small : limit < 2 ^ 62
  pub offsets : limit + 8 < 2 ^ c.probe.offset_bits + 8 * c.probe.number_of_key_slots

pub HasRoom-le :
    (limit : ℕ)
    → {m n r s : ℕ} → {c : Cache} → m ≤ n
    → r ≤ s
    → HasRoom limit n s c
    → HasRoom limit m r c
HasRoom-le limit le le_size room = record {
  entries = omega (arith, room.entries, le);
  space = omega (arith, room.space, le_size);
  capacity = room.capacity;
  small = room.small;
  offsets = room.offsets;
}

consume_value_lem :
    {C : Type 0}
    → (put : Put C) (key : Bytes) (value : Typed) (c : C)
    → consume_value put (key, value) c ≡ put key value c
unfolding consume_value
consume_value_lem put key (text s) c = refl
consume_value_lem put key (texts l) c = refl
consume_value_lem put key (flag b) c = refl
consume_value_lem put key (whole v) c = refl
consume_value_lem put key (real v) c = refl
consume_value_lem put key (reals fs) c = refl

IsEncoded-absent :
    {o : Option Typed} {x : Option (CacheValueType × Bytes)} → IsEncoded o x → x ≡ none → o ≡ none
IsEncoded-absent absent e = refl
IsEncoded-absent (text_stored s) e = absurd (cc e)
IsEncoded-absent (texts_stored l str _ _) e = absurd (cc e)
IsEncoded-absent (flag_stored b) e = absurd (cc e)
IsEncoded-absent (whole_stored v _) e = absurd (cc e)
IsEncoded-absent (real_stored v _) e = absurd (cc e)
IsEncoded-absent (reals_stored fs _) e = absurd (cc e)

module _ (typed : Bytes → Option Typed) (key : Bytes) (value : Typed) where
  then_first-old :
      (old : Typed) → typed key ≡ some old → typed ≡ then_first typed ((key, value) ∷ [])
  then_first-old old e = fun_ext λ k. elim (Bool-cases (bytes_eq k key)) [
    | inl same ↦ rw (same, bytes_eq-eq k key same, e)
    | inr other ↦ elim (Option-cases (typed k)) [
      | inl free ↦ rw (other, free)
      | inr (v, held) ↦ rw (other, held)
    ]
  ]

  then_first-new :
      typed key ≡ none → put_typed typed key value ≡ then_first typed ((key, value) ∷ [])
  then_first-new e = fun_ext λ k. elim (Bool-cases (bytes_eq k key)) [
    | inl same ↦ rw (same, bytes_eq-eq k key same, e)
    | inr other ↦ elim (Option-cases (typed k)) [
      | inl free ↦ rw (other, free)
      | inr (v, held) ↦ rw (other, held)
    ]
  ]

  then_first-step :
      (pairs : List (Bytes × Typed))
      → then_first (then_first typed ((key, value) ∷ [])) pairs
        ≡ then_first typed ((key, value) ∷ pairs)
  then_first-step pairs = fun_ext λ k. elim (Option-cases (typed k)) [
    | inl free ↦ elim (Bool-cases (bytes_eq k key)) [
      | inl same ↦ rw (free, same)
      | inr other ↦ rw (free, other)
    ]
    | inr (v, held) ↦ rw held
  ]

pub then_first-nil : (typed : Bytes → Option Typed) → typed ≡ then_first typed []
then_first-nil typed =
    fun_ext λ k. elim (Option-cases (typed k)) [ inl e ↦ rw e | inr (v, e) ↦ rw e ]

-- One value into a cache with room: it is stored or its key has a value.
module _ (h : Hasher) (limit n size : ℕ) (typed : Bytes → Option Typed) (c : Cache)
    (keeps : Keeps h typed c) (w : IsWritable c) (pair : Bytes × Typed)
    (room : HasRoom limit (n + 1) (record_length pair + size) c) (fits : Fits pair) where
  sized :
      (x : CacheValueType × Bytes)
      → encode pair.1 ≡ ok x
      → record_length pair ≡ entry_size (value_entry pair.0 (type_code x.0) x.1)
  sized x e =
      ap (λ (r : Result (CacheValueType × Bytes)). record_size + length pair.0 + encoded_length r) e

  can_grow :
      (x : CacheValueType × Bytes)
      → encode pair.1 ≡ ok x
      → CanGrow c.memory (value_entry pair.0 (type_code x.0) x.1)
  can_grow x e = record {
    heap = w.heap;
    no_wrap = omega (arith, sized x e, room.space, room.capacity, room.small);
  }

  near : offset_of c.probe c.memory.data_size < 2 ^ c.probe.offset_bits
  near = omega (
    arith,
    room.space,
    room.offsets,
    room.small,
    offset_of_lem c.probe keeps.refines.probe c.memory.data_size keeps.refines.above
        (omega (arith, room.space, room.small)),
  )

  abbrev Stored : Type 0
  Stored =
      (c' : Cache) × (r : Bool × ℕ) × (put_value h pair.0 pair.1 c ≡ (ok r, c'))
      × Keeps h (then_first typed (pair ∷ [])) c'
      × IsWritable c'
      × HasRoom limit n size c'

  put_old : (old : Typed) → typed pair.0 ≡ some old → Stored
  unfolding put_value
  put_old old known =
      let (x, to, enc) = encode-IsEncoded pair.1 fits.typed in
      let unknown : keeps.spec pair.0 ≡ none → typed pair.0 ≡ none =
        IsEncoded-absent (keeps.encodes pair.0) in
      elim (put_internal-Outcome h keeps.spec c keeps.refines w pair.0 x.0 x.1 (can_grow x to)) [
        | full a _ ↦ absurd (omega (arith, room.entries, a))
        | exists _ m _ _ run ↦ (
          c,
          (false, m),
          rw to run,
          subst (λ (t : Bytes → Option Typed). Keeps h t c)
              (then_first-old typed pair.0 pair.1 old known) keeps,
          w,
          HasRoom-le limit (omega arith) (omega arith) room,
        )
        | long_key _ e _ _ ↦ absurd (cc (unknown e, known))
        | long_value _ e _ _ _ ↦ absurd (cc (unknown e, known))
        | far_offset _ _ e _ _ _ _ ↦ absurd (cc (unknown e, known))
        | stored _ _ _ e _ _ _ _ _ _ _ _ ↦ absurd (cc (unknown e, known))
      ]

  put_new : typed pair.0 ≡ none → Stored
  put_new new =
      let (c', m, run, kept, w', (x, to, grew), more) =
        put_value-Keeps h typed c keeps w pair.0 pair.1 fits.typed new (omega (arith, room.entries))
          near fits.short_key
          λ x e. (omega (arith, ap encoded_length e, fits.short_value), can_grow x e) in
      (
        c',
        (true, m),
        run,
        subst (λ (t : Bytes → Option Typed). Keeps h t c') (then_first-new typed pair.0 pair.1 new)
            kept,
        w',
        record {
          entries = omega (arith, room.entries, more, grew.same_limit);
          space = omega (arith, room.space, grew.size, sized x to);
          capacity = omega (arith, room.space, room.capacity, grew.capacity, sized x to);
          small = room.small;
          offsets = rw (grew.same_probe) (room.offsets);
        },
      )

  put_value-first : Stored
  put_value-first = elim (Option-cases (typed pair.0)) [
    | inl new ↦ put_new new
    | inr (old, known) ↦ put_old old known
  ]

read_lines-step :
    {C : Type 0}
    → (put : Put C) (parser : CacheValueParser) (line : Bytes) (lines : List Bytes)
      (pair : Bytes × Typed) (c c' : C) (r : Bool × ℕ) (n : ℕ)
    → parse_value parser line ≡ ok pair
    → put pair.0 pair.1 c ≡ (ok r, c')
    → n + 1 < 2 ^ 64
    → read_lines put parser (line ∷ lines) c n ≡ read_lines put parser lines c' (n + 1)
unfolding read_lines
read_lines-step put parser line lines (key, value) c c' r n e run few =
    let count : u64 (n + 1) ≡ n + 1 = omega arith in
    rw (e, consume_value_lem put key value c, run, count)

-- Lines that are read and consumed by a linear probe cache.
module _ (h : Hasher) (parser : CacheValueParser) (limit : ℕ) where
  -- When every line parses to a pair of a key and a value that fits and the cache has room for as many
  -- entries as there are lines and for their records, all lines are consumed without an error, and each counts as one line
  -- read, if the count stays below 2 ^ 64; the cache then keeps under each key the value it had before,
  -- or else the first one of the lines, is writable, and has the remaining room.
  pub read_lines-Keeps :
      {lines : List Bytes}
      → {pairs : List (Bytes × Typed)} → Parsed parser lines pairs
      → (spare rest : ℕ) (typed : Bytes → Option Typed) (c : Cache) → Keeps h typed c
      → IsWritable c
      → HasRoom limit (length lines + spare) (records_size pairs + rest) c
      → (lines_read : ℕ) → lines_read + length lines < 2 ^ 64
      → (c' : Cache) × (read_lines (put_value h) parser lines c lines_read
          ≡ (ok (lines_read + length lines), c'))
        × Keeps h (then_first typed pairs) c'
        × IsWritable c'
        × HasRoom limit spare rest c'
  unfolding read_lines
  read_lines-Keeps no_lines spare rest typed c keeps w room n few = (
    c,
    ap (λ (k : ℕ). (ok k, c)) (omega arith),
    subst (λ (t : Bytes → Option Typed). Keeps h t c) (then_first-nil typed) keeps,
    w,
    HasRoom-le limit (omega arith) (omega arith) room,
  )
  read_lines-Keeps (one_more {lines} {pairs} line (key, value) e fits more) spare rest typed c keeps
        w room n few =
      let (c1, r, run, kept, w1, room1) =
        put_value-first h limit (length lines + spare) (records_size pairs + rest) typed c keeps w
          (key, value) (HasRoom-le limit (omega arith) (omega arith) room) fits in
      let (c', runs, keeps', w', room') =
        read_lines-Keeps more spare rest (then_first typed ((key, value) ∷ [])) c1 kept w1 room1
          (n + 1) (omega (arith, few)) in
      (
        c',
        read_lines-step (put_value h) parser line lines (key, value) c c1 r n e run
              (omega (arith, few))
            ∙ runs
            ∙ ap (λ (k : ℕ). (ok k, c')) (omega arith),
        subst (λ (t : Bytes → Option Typed). Keeps h t c') (then_first-step typed key value pairs)
            keeps',
        w',
        room',
      )
