-- ===== src/Tests/TypedCache.antt =====
-- Typed values in a small linear probe cache.
use axon_cache.Prelude.{
  ℕ, ◌+◌, ◌^◌, ◌≤◌, ◌<◌, ◌≡◌, refl, subst, Option, none, some, Bytes, ok, throw, true, false, arith,
  [], ◌∷◌, length, type_is_string,
}
use axon_cache.Domain.{CacheValueType, string, int64, type_code, value_length_limit}
use axon_cache.Value.Add.{value_entry, CanGrow}
use axon_cache.Value.Slot.{offset_of}
use axon_cache.Probe.{keyspace_size_offset}
use axon_cache.Ram.{le}
use axon_cache.Cache.{Cache, put_internal}
use axon_cache.Cache.Models.{IsWritable}
use axon_cache.Cache.Outcome.{Spec, Grew}
use axon_cache.Cache.Run.{Puts, start, put, log_spec, Puts-Refines}
use axon_cache.Tests.Linear.{
  seven, key_a, key_b, fresh, text, fresh-Refines, fresh-IsWritable, fresh-CanGrow, one_put,
  one_put_run, program,
}
use axon_cache.Convert.{type_to_string, null_terminated}
use axon_cache.Typed.{
  DoubleParsers, get_string, get_bool, get_int64, get_double, get_vector, get_float_span,
}
use axon_cache.Typed.Values.{Typed, whole, IsEncoded, encode, absent, text_stored, whole_stored}
use axon_cache.Typed.Reads.{
  IsReader, Encodes, get_string-text_answer, get_bool-bool_answer, get_int64-int64_answer,
  get_double-double_answer, get_vector-vector_answer, get_float_span-span_answer,
}
use axon_cache.Typed.Linear.{
  reader, reader-IsReader, Keeps, put_typed, put_value, put_value-Keeps, put_spec-Encodes,
}

abbrev pub nothing : Bytes → Option Typed
nothing _ = none

fresh-Keeps : Keeps seven nothing fresh
fresh-Keeps = record { spec = λ _. none; refines = fresh-Refines; encodes = λ k. absent }

abbrev five : Bytes
five = 5 ∷ 0 ∷ 0 ∷ 0 ∷ 0 ∷ 0 ∷ 0 ∷ 0 ∷ []

abbrev pub stock : Cache
stock = (put_internal seven key_b int64 five one_put).1

both-Puts : Puts seven fresh ((key_b, int64, five) ∷ (key_a, string, text) ∷ []) stock
unfolding program
both-Puts =
    put key_b int64 five (put key_a string text start fresh-CanGrow one_put_run)
      (record { heap = record { heap = refl; fits = omega arith }; no_wrap = omega arith }) refl

abbrev letters : Typed
letters = Typed.text (b'x' ∷ b'y' ∷ [])

abbrev pub goods : Bytes → Option Typed
goods = put_typed (put_typed nothing key_a letters) key_b (whole 5)

letters-IsEncoded : IsEncoded (some letters) (some (string, text))
unfolding null_terminated
letters-IsEncoded = text_stored (b'x' ∷ b'y' ∷ [])

five-IsEncoded : IsEncoded (some (whole 5)) (some (int64, five))
unfolding type_to_string le
five-IsEncoded = whole_stored 5 (omega arith)

abbrev pub contents : Spec
contents = log_spec ((key_b, int64, five) ∷ (key_a, string, text) ∷ [])

pub stock-IsReader : IsReader seven.hash contents (reader seven stock)
stock-IsReader =
    reader-IsReader seven contents stock
      (Puts-Refines seven fresh fresh-Refines fresh-IsWritable both-Puts).0

pub stock-Encodes : Encodes contents goods
stock-Encodes =
    put_spec-Encodes _ _ key_b (whole 5) (int64, five)
      (put_spec-Encodes (λ _. none) nothing key_a letters (string, text) (λ k. absent)
        letters-IsEncoded)
      five-IsEncoded

-- Parsers that read nothing.
abbrev pub no_parsers : DoubleParsers
no_parsers = record { fast_from_chars = λ _. none; strtod = λ _. (0, 0) }

letters_encoded : encode letters ≡ ok (string, text)
unfolding encode null_terminated
letters_encoded = refl

letters_room :
    (x : CacheValueType × Bytes)
    → encode letters ≡ ok x
    → (length x.1 ≤ value_length_limit)
      × CanGrow fresh.memory (value_entry key_a (type_code x.0) x.1)
letters_room x e =
    let same : (string, text) ≡ x = cc (e, letters_encoded) in
    subst
      (λ (y : CacheValueType × Bytes).
        (length y.1 ≤ value_length_limit)
        × CanGrow fresh.memory (value_entry key_a (type_code y.0) y.1))
      same (omega arith, fresh-CanGrow)

near : offset_of fresh.probe fresh.memory.data_size < 2 ^ fresh.probe.offset_bits
unfolding offset_of keyspace_size_offset
near = omega arith

put_value-Keeps_example :
    (c' : Cache) × (n : ℕ) × (put_value seven key_a letters fresh ≡ (ok (true, n), c'))
    × Keeps seven (put_typed nothing key_a letters) c'
    × IsWritable c'
    × ((x : CacheValueType × Bytes) × (encode letters ≡ ok x)
        × Grew fresh (value_entry key_a (type_code x.0) x.1) c')
    × (c'.number_of_entries ≡ fresh.number_of_entries + 1)
put_value-Keeps_example =
    put_value-Keeps seven nothing fresh fresh-Keeps fresh-IsWritable key_a letters tt refl
      (omega arith) near (omega arith) letters_room

get_string-text_answer_example :
    get_string (reader seven stock) key_a [] ≡ ok ((b'x' ∷ b'y' ∷ [], true), 7)
get_string-text_answer_example =
    get_string-text_answer seven.hash contents (reader seven stock) stock-IsReader goods
      stock-Encodes key_a []

get_bool-bool_answer_example : get_bool (reader seven stock) key_b false ≡ ok ((true, true), 7)
get_bool-bool_answer_example =
    get_bool-bool_answer seven.hash contents (reader seven stock) stock-IsReader goods stock-Encodes
      key_b false

get_int64-int64_answer_example : get_int64 (reader seven stock) key_b 9 ≡ ok ((5, true), 7)
get_int64-int64_answer_example =
    get_int64-int64_answer seven.hash contents (reader seven stock) stock-IsReader goods
      stock-Encodes key_b 9

get_double-double_answer_example :
    get_double no_parsers (reader seven stock) key_b 9 ≡ ok ((9, false), 7)
get_double-double_answer_example =
    get_double-double_answer seven.hash contents (reader seven stock) stock-IsReader goods
      stock-Encodes key_b no_parsers 9

get_vector-vector_answer_example :
    get_vector (reader seven stock) key_a (key_b ∷ []) ≡ ok (key_b ∷ [], 7)
get_vector-vector_answer_example =
    get_vector-vector_answer seven.hash contents (reader seven stock) stock-IsReader goods
      stock-Encodes key_a (key_b ∷ [])

get_float_span-span_answer_example :
    get_float_span (reader seven stock) key_a ≡ throw type_is_string
get_float_span-span_answer_example =
    get_float_span-span_answer seven.hash contents (reader seven stock) stock-IsReader goods
      stock-Encodes key_a
