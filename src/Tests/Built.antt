-- ===== src/Tests/Built.antt =====
-- A cache built from two input files.
use axon_cache.Prelude.{ℕ, ◌≡◌, refl, [], ◌∷◌, List, Option, none, some, Bytes, ok, Returns, arith}
use axon_cache.Domain.{linear_probe}
use axon_cache.Header.RoundTrip.{IsInfo}
use axon_cache.Probe.{hashcode_bits}
use axon_cache.Cache.{Cache}
use axon_cache.Cache.Models.{IsWritable}
use axon_cache.Cache.New.{built, built-Refines, built-IsWritable}
use axon_cache.Convert.{null_terminated}
use axon_cache.Typed.Values.{Typed, text, encode, absent}
use axon_cache.Typed.Linear.{Keeps, put_value}
use axon_cache.Parser.{parse_value}
use axon_cache.Parser.Lines.{parse_value-text}
use axon_cache.Loader.{cache_info, write_linear, load_linear}
use axon_cache.Tests.Linear.{seven, thousandths, key_a, key_b, program}
use axon_cache.Tests.Lines.{commas}
use axon_cache.Tests.TypedCache.{nothing}
use axon_cache.Tests.Files.{file_name, zeros, length-zeros}
use axon_cache.Build.{get_lines, read_values, build_files}
use axon_cache.Build.Lines.{Fits, Parsed, no_lines, one_more, HasRoom, records_size, then_first}
use axon_cache.Build.Files.{
  ParsedFiles, no_files, one_file, read_values-Keeps, load_linear-build_files,
}

abbrev wide : Cache
wide = built thousandths 16 8 500 64

wide-Keeps : Keeps seven nothing wide
wide-Keeps = record {
  spec = λ _. none;
  refines =
      built-Refines seven thousandths 16 8 500 64 (omega arith) (omega arith) (omega arith)
        (omega arith);
  encodes = λ k. absent;
}

wide-IsWritable : IsWritable wide
wide-IsWritable =
    built-IsWritable seven thousandths 16 8 500 64 (omega arith) (omega arith) (omega arith)
      (omega arith) refl refl

abbrev first_file : Bytes
first_file = b'a' ∷ b'=' ∷ b'x' ∷ 10 ∷ b'b' ∷ b'=' ∷ b'y' ∷ 10 ∷ []

-- Its last line has no delimiter, and its key has a value.
abbrev second_file : Bytes
second_file = b'a' ∷ b'=' ∷ b'z' ∷ []

abbrev first_pairs : List (Bytes × Typed)
first_pairs = (key_a, text (b'x' ∷ [])) ∷ (key_b, text (b'y' ∷ [])) ∷ []

abbrev all_pairs : List (Bytes × Typed)
all_pairs = (key_a, text (b'x' ∷ [])) ∷ (key_b, text (b'y' ∷ [])) ∷ (key_a, text (b'z' ∷ [])) ∷ []

letter-Fits : (k c : ℕ) → Fits (k ∷ [], text (c ∷ []))
unfolding encode null_terminated
letter-Fits k c = record { typed = tt; short_key = omega arith; short_value = omega arith }

first-Parsed : Parsed commas (get_lines 10 [] first_file) first_pairs
unfolding get_lines
first-Parsed =
    one_more _ _ (parse_value-text commas b'a' [] (b'x' ∷ []) (refl, tt) refl)
      (letter-Fits b'a' b'x')
      (one_more _ _ (parse_value-text commas b'b' [] (b'y' ∷ []) (refl, tt) refl)
        (letter-Fits b'b' b'y') no_lines)

second-Parsed : Parsed commas (get_lines 10 [] second_file) ((key_a, text (b'z' ∷ [])) ∷ [])
unfolding get_lines
second-Parsed =
    one_more _ _ (parse_value-text commas b'a' [] (b'z' ∷ []) (refl, tt) refl)
      (letter-Fits b'a' b'z') no_lines

abbrev files : List (Option Bytes)
files = some first_file ∷ some second_file ∷ []

files-ParsedFiles : ParsedFiles commas 10 files all_pairs
files-ParsedFiles =
    one_file first_file first_pairs first-Parsed
      (one_file second_file ((key_a, text (b'z' ∷ [])) ∷ []) second-Parsed no_files)

wide-HasRoom : HasRoom 60000 3 (records_size all_pairs) wide
unfolding encode null_terminated
wide-HasRoom = record {
  entries = omega arith;
  space = omega arith;
  capacity = omega arith;
  small = omega arith;
  offsets = omega arith;
}

abbrev read_cache : Cache
read_cache = (read_values (put_value seven) commas 10 files wide).1

read_cache-IsInfo : IsInfo (cache_info 2000 linear_probe read_cache) 1700000000000
unfolding cache_info hashcode_bits program read_values put_value null_terminated encode parse_value
read_cache-IsInfo = record {
  version = omega arith;
  type = omega arith;
  hashcode_bits = omega arith;
  offset_bits = omega arith;
  hash_func_id = omega arith;
  max_collisions = omega arith;
  max_load_factor = omega arith;
  creation_time = omega arith;
  number_of_key_slots = omega arith;
  number_of_entries = omega arith;
  data_size = omega arith;
  size = omega arith;
}

read_values-Keeps_example :
    (c' : Cache) × (read_values (put_value seven) commas 10 files wide ≡ (ok 3, c'))
    × Keeps seven (then_first nothing all_pairs) c'
    × IsWritable c'
read_values-Keeps_example =
    read_values-Keeps seven commas 10 60000 files-ParsedFiles nothing wide wide-Keeps
      wide-IsWritable wide-HasRoom (omega arith)

load_linear-build_files_example :
    (file : Bytes) × (c' : Cache) × (build_files
        (put_value seven)
        commas
        10
        files
        (write_linear 2000 key_a 1700000000000 (zeros 32))
        wide
      ≡ (ok file, c'))
    × Returns
        (load_linear 2000 file_name (some file) (some file))
        λ (loaded, timestamp). Keeps seven (then_first nothing all_pairs) loaded
load_linear-build_files_example =
    load_linear-build_files seven commas 10 60000 files-ParsedFiles nothing wide wide-Keeps
      wide-IsWritable wide-HasRoom (omega arith) 2000 key_a 1700000000000 (zeros 32) file_name refl
      read_cache-IsInfo length-zeros
