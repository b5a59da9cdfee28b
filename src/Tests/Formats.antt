-- ===== src/Tests/Formats.antt =====
-- Views, vectors of floats and file headers at concrete inputs.
use axon_cache.Prelude.{◌≡◌, refl, true, false, [], ◌∷◌, ◌++◌, Bytes, none, ok, arith}
use axon_cache.Domain.{float_list}
use axon_cache.Ram.{from_le}
use axon_cache.Convert.{split_bytes}
use axon_cache.Views.{
  string_view_split, string_view_split_at, string_view_split_multi_delimiters, trim_spaces,
  NumberParser,
}
use axon_cache.Typed.{Reader}
use axon_cache.Typed.Floats.{get_float_at_indices, float_at}
use axon_cache.Typed.Floats.Elements.{values_only, one_by_one, get_float_at_indices-one_by_one}
use axon_cache.Header.{CacheInfo, new_header, write, read, c_string}
use axon_cache.Header.RoundTrip.{IsInfo, read-write}

abbrev line : Bytes
line = b'a' ∷ b',' ∷ b',' ∷ b'b' ∷ b',' ∷ []

split_run : string_view_split b',' line ≡ (b'a' ∷ []) ∷ [] ∷ (b'b' ∷ []) ∷ [] ∷ []
unfolding string_view_split
split_run = refl

split_at_run : string_view_split_at (b',' ∷ b',' ∷ []) line ≡ (b'a' ∷ []) ∷ (b'b' ∷ b',' ∷ []) ∷ []
unfolding string_view_split_at
split_at_run = refl

multi_split_run :
    string_view_split_multi_delimiters (b',' ∷ b';' ∷ []) (b'x' ∷ b';' ∷ b'y' ∷ b',' ∷ [])
    ≡ (b'x' ∷ []) ∷ (b'y' ∷ []) ∷ [] ∷ []
unfolding string_view_split_multi_delimiters
multi_split_run = refl

abbrev padded : Bytes
padded = 32 ∷ 9 ∷ b'a' ∷ 32 ∷ b'b' ∷ 10 ∷ []

trim_run : trim_spaces padded ≡ b'a' ∷ 32 ∷ b'b' ∷ []
unfolding trim_spaces
trim_run = refl

-- A reader with the floats 1 and 2 under every key.
abbrev two_floats : Reader
two_floats = record {
  get_internal = λ key type. ok ([], true, 1);
  get_with_type_internal = λ key. ok ((0 ∷ 0 ∷ 128 ∷ 63 ∷ 0 ∷ 0 ∷ 0 ∷ 64 ∷ [], float_list), 1);
}

abbrev pub no_numbers : NumberParser
no_numbers = record {
  from_chars = λ _. none;
  is_floating_point = true;
  is_normal = λ _. true;
  is_zero = λ _. false;
}

get_float_at_indices-one_by_one_example :
    values_only (get_float_at_indices no_numbers two_floats [] (1 ∷ 2 ∷ 4294967295 ∷ []))
    ≡ one_by_one no_numbers two_floats [] (1 ∷ 2 ∷ 4294967295 ∷ [])
get_float_at_indices-one_by_one_example =
    get_float_at_indices-one_by_one no_numbers two_floats [] 1 (2 ∷ 4294967295 ∷ [])

elements_run :
    values_only (get_float_at_indices no_numbers two_floats [] (1 ∷ 2 ∷ 0 ∷ []))
    ≡ ok (1073741824 ∷ 0 ∷ 1065353216 ∷ [])
unfolding get_float_at_indices float_at split_bytes from_le
elements_run = refl

abbrev info : CacheInfo
info = record {
  version = 1;
  type = 3;
  hashcode_bits = 29;
  offset_bits = 35;
  hash_func_id = 1;
  max_collisions = 4;
  max_load_factor = 4602678819172646912;
  number_of_key_slots = 1024;
  number_of_entries = 100;
  data_size = 5000;
  size = 13296;
}

abbrev buffer : Bytes
buffer =
    7 ∷ 7 ∷ 7 ∷ 7 ∷ 7 ∷ 7 ∷ 7 ∷ 7 ∷ 7 ∷ 7 ∷ 7 ∷ 7 ∷ 7 ∷ 7 ∷ 7 ∷ 7 ∷ 7 ∷ 7 ∷ 7 ∷ 7 ∷ 7 ∷ 7 ∷ 7 ∷ 7
    ∷ 7 ∷ 7 ∷ 7 ∷ 7 ∷ 7 ∷ 7 ∷ 7 ∷ 7 ∷ []

abbrev cache_name : Bytes
cache_name = b'a' ∷ b'b' ∷ b'c' ∷ []

info-IsInfo : IsInfo info 1700000000000
info-IsInfo = record {
  version = omega arith;
  type = omega arith;
  hashcode_bits = omega arith;
  offset_bits = omega arith;
  hash_func_id = omega arith;
  max_collisions = omega arith;
  max_load_factor = omega arith;
  creation_time = omega arith;
  number_of_key_slots = omega arith;
  number_of_entries = omega arith;
  data_size = omega arith;
  size = omega arith;
}

read-write_example :
    read (write info cache_name 1700000000000 buffer ++ (1 ∷ 2 ∷ []))
    ≡ ok ((c_string 31 cache_name, new_header info cache_name 1700000000000 buffer), 1 ∷ 2 ∷ [])
read-write_example = read-write info cache_name 1700000000000 buffer (1 ∷ 2 ∷ []) info-IsInfo refl
