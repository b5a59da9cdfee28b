-- ===== src/Build.antt =====
-- From input files to a cache file: CacheValueConsumer (src/axoncache/consumer/CacheValueConsumer.cpp),
-- DataFileReader (src/axoncache/reader/DataFileReader.cpp), CacheBuilder and CacheFileBuilder
-- (include/axoncache/builder/CacheBuilder.h, include/axoncache/builder/CacheFileBuilder.h). A cache is
-- its overloads of `put`; a CacheValue is the argument of one of them.
pub mod Getline
pub mod Lines
pub mod Files
use axon_cache.Prelude.{
  ℕ, ◌+◌, Bool, true, false, Option, none, some, List, [], ◌∷◌, ◌++◌, Bytes, is_empty, ◌==◌, u64,
  Result, ok, throw, guard, on_ok, ◌>>=◌, if◌then◌else◌, could_not_open, no_input_file,
}
use axon_cache.Typed.Values.{Typed, text, texts, flag, whole, real, reals}
use axon_cache.Parser.{CacheValueParser, parse_value}

-- The overloads of `CacheBase::put`.
abbrev pub Put : Type 0 → Type 0
Put C = Bytes → Typed → C → Result (Bool × ℕ) × C

-- `consumeValue`: the overload for the type of the value.
unfoldable pub consume_value : {C : Type 0} → Put C → Bytes × Typed → C → Result (Bool × ℕ) × C
consume_value put (key, text s) c = put key (text s) c
consume_value put (key, texts l) c = put key (texts l) c
consume_value put (key, flag b) c = put key (flag b) c
consume_value put (key, whole v) c = put key (whole v) c
consume_value put (key, real v) c = put key (real v) c
consume_value put (key, reals fs) c = put key (reals fs) c

-- `std::getline`, until the stream ends: what follows the last delimiter is a line if it is not empty.
unfoldable pub get_lines : ℕ → Bytes → Bytes → List Bytes
get_lines delimiter [] [] = []
get_lines delimiter (t ∷ token) [] = (t ∷ token) ∷ []
get_lines delimiter token (c ∷ rest) = elim (c == delimiter) [
  | true ↦ token ∷ get_lines delimiter [] rest
  | false ↦ get_lines delimiter (token ++ (c ∷ [])) rest
]

-- The loop of `readValues` over the lines of a file; `lines_read` counts them.
unfoldable pub read_lines :
    {C : Type 0} → Put C → CacheValueParser → List Bytes → C → ℕ → Result ℕ × C
unfolding consume_value
read_lines put parser [] c lines_read = (ok lines_read, c)
read_lines put parser (line ∷ lines) c lines_read = on_ok (parse_value parser line) c λ pair.
    let (r, consumed) = consume_value put pair c in
    on_ok r consumed λ _. read_lines put parser lines consumed (u64 (lines_read + 1))

-- The loop over the files, of which `none` cannot be opened.
unfoldable pub read_files :
    {C : Type 0} → Put C → CacheValueParser → ℕ → List (Option Bytes) → C → ℕ → Result ℕ × C
unfolding get_lines read_lines
read_files put parser delimiter [] c lines_read = (ok lines_read, c)
read_files put parser delimiter (none ∷ files) c lines_read = (throw could_not_open, c)
read_files put parser delimiter (some file ∷ files) c lines_read =
    let (r, filled) = read_lines put parser (get_lines delimiter [] file) c lines_read in
    on_ok r filled λ read. read_files put parser delimiter files filled read

-- `readValues`
unfoldable pub read_values :
    {C : Type 0} → Put C → CacheValueParser → ℕ → List (Option Bytes) → C → Result ℕ × C
unfolding read_files
read_values put parser delimiter files c = read_files put parser delimiter files c 0

-- `CacheBuilder::build`, over the way in which the writer writes the cache.
unfoldable pub build :
    {C : Type 0}
    → Put C
    → CacheValueParser
    → ℕ
    → List (Option Bytes)
    → (C → Bytes)
    → C
    → Result Bytes × C
unfolding read_values
build put parser delimiter files write c =
    let (r, filled) = read_values put parser delimiter files c in
    on_ok r filled λ _. (ok (write filled), filled)

abbrev pub has_no_file : List (Option Bytes) → Bool
has_no_file [] = true
has_no_file (file ∷ files) = false

-- The constructor of CacheFileBuilder, and then `build`.
unfoldable pub build_files :
    {C : Type 0}
    → Put C
    → CacheValueParser
    → ℕ
    → List (Option Bytes)
    → (C → Bytes)
    → C
    → Result Bytes × C
unfolding build
build_files put parser delimiter files write c =
    if has_no_file files then (throw no_input_file, c) else build put parser delimiter files write c
