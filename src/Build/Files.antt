-- ===== src/Build/Files.antt =====
-- From the input files of a linear probe cache to the cache that is loaded from the file that is built
-- (src/axoncache/reader/DataFileReader.cpp, include/axoncache/builder/CacheFileBuilder.h,
-- src/axoncache/loader/CacheOneTimeLoader.cpp).
use axon_cache.Prelude.{
  ℕ, ◌+◌, ◌^◌, ◌<◌, ◌≡◌, refl, ap, sym, subst, ◌∙◌, inl, inr, Option, some, false, List, [], ◌∷◌,
  ◌++◌, Bytes, Result, ok, length, bytes_eq, or_else, Bool-cases, Option-cases, arith, Returns,
}
use mathlib.Core.Path.{fun_ext}
use axon_cache.Domain.{linear_probe}
use axon_cache.Header.RoundTrip.{IsInfo}
use axon_cache.Cache.{Cache, Hasher}
use axon_cache.Cache.Models.{IsWritable}
use axon_cache.Typed.Values.{Typed}
use axon_cache.Typed.Linear.{Keeps, put_value}
use axon_cache.Parser.{CacheValueParser}
use axon_cache.Loader.{cache_info, write_linear, load_linear}
use axon_cache.Loader.Linear.{load_linear-write_linear}
use axon_cache.Build.{
  get_lines, read_lines, read_files, read_values, has_no_file, build, build_files,
}
use axon_cache.Build.Lines.{
  first_value, then_first, then_first-nil, Parsed, no_lines, one_more, HasRoom, HasRoom-le,
  records_size, read_lines-Keeps,
}

-- The files can be opened, and their lines are those of the pairs.
pub data ParsedFiles (parser : CacheValueParser) (delimiter : ℕ)
    : List (Option Bytes) → List (Bytes × Typed) → Type 0 where
  no_files : ParsedFiles parser delimiter [] []
  one_file :
      {files : List (Option Bytes)}
      → {pairs : List (Bytes × Typed)} → (file : Bytes) (first : List (Bytes × Typed))
      → Parsed parser (get_lines delimiter [] file) first
      → ParsedFiles parser delimiter files pairs
      → ParsedFiles parser delimiter (some file ∷ files) (first ++ pairs)

length-Parsed :
    (parser : CacheValueParser) {lines : List Bytes} {pairs : List (Bytes × Typed)}
    → Parsed parser lines pairs
    → length lines ≡ length pairs
length-Parsed parser no_lines = refl
length-Parsed parser (one_more line pair e fits rest) = rw (length-Parsed parser rest)

length-append : (ps qs : List (Bytes × Typed)) → length (ps ++ qs) ≡ length ps + length qs
length-append [] qs = omega arith
length-append (p ∷ ps) qs = omega (arith, length-append ps qs)

records_size-append :
    (ps qs : List (Bytes × Typed)) → records_size (ps ++ qs) ≡ records_size ps + records_size qs
records_size-append [] qs = omega arith
records_size-append ((key, value) ∷ ps) qs = omega (arith, records_size-append ps qs)

first_value-append :
    (ps qs : List (Bytes × Typed)) (k : Bytes)
    → first_value (ps ++ qs) k ≡ or_else (first_value ps k) (first_value qs k)
first_value-append [] qs k = refl
first_value-append ((key, value) ∷ ps) qs k = elim (Bool-cases (bytes_eq k key)) [
  | inl same ↦ rw same
  | inr other ↦ rw other (first_value-append ps qs k)
]

then_first-append :
    (typed : Bytes → Option Typed) (ps qs : List (Bytes × Typed))
    → then_first (then_first typed ps) qs ≡ then_first typed (ps ++ qs)
then_first-append typed ps qs = fun_ext λ k. elim (Option-cases (typed k)) [
  | inl free ↦ rw free (sym (first_value-append ps qs k))
  | inr (v, held) ↦ rw held
]

read_files-step :
    {C : Type 0}
    → (put : axon_cache.Build.Put C) (parser : CacheValueParser) (delimiter : ℕ) (file : Bytes)
      (files : List (Option Bytes)) (c c' : C) (n m : ℕ)
    → read_lines put parser (get_lines delimiter [] file) c n ≡ (ok m, c')
    → read_files put parser delimiter (some file ∷ files) c n
      ≡ read_files put parser delimiter files c' m
unfolding read_files
read_files-step put parser delimiter file files c c' n m run = rw run

module _ (h : Hasher) (parser : CacheValueParser) (delimiter limit : ℕ) where
  read_files-Keeps :
      {files : List (Option Bytes)}
      → {pairs : List (Bytes × Typed)} → ParsedFiles parser delimiter files pairs
      → (typed : Bytes → Option Typed) (c : Cache) → Keeps h typed c
      → IsWritable c
      → HasRoom limit (length pairs) (records_size pairs) c
      → (n : ℕ) → n + length pairs < 2 ^ 64
      → (c' : Cache) × (read_files (put_value h) parser delimiter files c n
          ≡ (ok (n + length pairs), c'))
        × Keeps h (then_first typed pairs) c'
        × IsWritable c'
  unfolding read_files
  read_files-Keeps no_files typed c keeps w room n few = (
    c,
    ap (λ (k : ℕ). (ok k, c)) (omega arith),
    subst (λ (t : Bytes → Option Typed). Keeps h t c) (then_first-nil typed) keeps,
    w,
  )
  read_files-Keeps (one_file {files} {pairs} file first lines rest) typed c keeps w room n few =
      let sizes = length-append first pairs in
      let count = length-Parsed parser lines in
      let (c1, run, kept, w1, room1) =
        read_lines-Keeps h parser limit lines (length pairs) (records_size pairs) typed c keeps w
          (HasRoom-le limit (omega (arith, sizes, count))
            (omega (arith, records_size-append first pairs)) room)
          n (omega (arith, few, sizes, count)) in
      let (c', runs, keeps', w') =
        read_files-Keeps rest (then_first typed first) c1 kept w1 room1
          (n + length (get_lines delimiter [] file)) (omega (arith, few, sizes, count)) in
      (
        c',
        read_files-step (put_value h) parser delimiter file files c c1 n _ run
            ∙ runs
            ∙ ap (λ (k : ℕ). (ok k, c')) (omega (arith, sizes, count)),
        subst (λ (t : Bytes → Option Typed). Keeps h t c') (then_first-append typed first pairs)
            keeps',
        w',
      )

-- Reading all files and building the cache file.
module _ (h : Hasher) (parser : CacheValueParser) (delimiter limit : ℕ)
    {files : List (Option Bytes)} {pairs : List (Bytes × Typed)}
    (lines : ParsedFiles parser delimiter files pairs) (typed : Bytes → Option Typed) (c : Cache)
    (keeps : Keeps h typed c) (w : IsWritable c)
    (room : HasRoom limit (length pairs) (records_size pairs) c) (few : length pairs < 2 ^ 64) where
  -- When every file can be opened, every line parses to a pair of a key and a value that fits, and the
  -- cache has room for as many entries as there are lines and for their records, `readValues` ends without an error and returns
  -- the number of lines; the cache then keeps under each key the value it had before, or else the first
  -- one of the files in their order, and is writable.
  pub read_values-Keeps :
      (c' : Cache) × (read_values (put_value h) parser delimiter files c ≡ (ok (length pairs), c'))
      × Keeps h (then_first typed pairs) c'
      × IsWritable c'
  unfolding read_values
  read_values-Keeps =
      let (c', run, kept, w') =
        read_files-Keeps h parser delimiter limit lines typed c keeps w room 0
          (omega (arith, few)) in
      (c', run ∙ ap (λ (k : ℕ). (ok k, c')) (omega arith), kept, w')

  -- When moreover there is a file and the header's fields fit for the cache that was read, building
  -- returns a cache file. Loaded under the same version, it is a cache that keeps those values, every one
  -- of them under its key and no other.
  pub load_linear-build_files :
      (version : ℕ) (name : Bytes) (now : ℕ) (buffer file_name : Bytes)
      → has_no_file files ≡ false
      → IsInfo
          (cache_info version linear_probe (read_values (put_value h) parser delimiter files c).1)
          now
      → length buffer ≡ 32
      → (file : Bytes) × (c' : Cache) × (build_files
            (put_value h)
            parser
            delimiter
            files
            (write_linear version name now buffer)
            c
          ≡ (ok file, c'))
        × Returns
            (load_linear version file_name (some file) (some file))
            (λ (loaded, timestamp). Keeps h (then_first typed pairs) loaded)
  unfolding build build_files
  load_linear-build_files version name now buffer file_name some_file info b =
      let (c', run, kept, w') = read_values-Keeps in
      let info' : IsInfo (cache_info version linear_probe c') now =
        subst (λ (r : Result ℕ × Cache). IsInfo (cache_info version linear_probe r.1) now) run
          info in
      let (loaded, loads, (refines, _, _)) =
        load_linear-write_linear h kept.spec c' version name now buffer file_name kept.refines info'
          b in
      (
        write_linear version name now buffer c',
        c',
        rw (some_file, run),
        (loaded, loads, record { spec = kept.spec; refines = refines; encodes = kept.encodes }),
      )
