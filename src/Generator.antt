-- ===== src/Generator.antt =====
-- What caches to generate (src/axoncache/CacheGenerator.cpp): the constructor of CacheGenerator, from the
-- settings.
use axon_cache.Prelude.{
  sign_extended, ℕ, ◌^◌, ◌%◌, List, [], ◌∷◌, ◌++◌, Bytes, ◌==◌, map, if◌then◌else◌,
}
use axon_cache.Domain.{bucket_chain, linear_probe, cache_type_code}
use axon_cache.Typed.{DoubleParsers}
use axon_cache.Build.{get_lines}
use axon_cache.Settings.{get_setting, get_int, get_double_setting}

-- The type is the number that is cast to a CacheType; the load factor is the pattern of a `double`.
pub record CacheArgs : Type 0 where
  pub offset_bits : ℕ
  pub number_of_key_slots : ℕ
  pub max_load_factor : ℕ
  pub cache_name : Bytes
  pub cache_type : ℕ
  pub output_directory : Bytes
  pub input_files : List Bytes

abbrev cache_names_key : Bytes
cache_names_key =
    b'a' ∷ b'x' ∷ b'o' ∷ b'n' ∷ b'c' ∷ b'a' ∷ b'c' ∷ b'h' ∷ b'e' ∷ b'.' ∷ b'n' ∷ b'a' ∷ b'm' ∷ b'e'
    ∷ b's' ∷ []

abbrev cache_type_key : Bytes
cache_type_key =
    b'a' ∷ b'x' ∷ b'o' ∷ b'n' ∷ b'c' ∷ b'a' ∷ b'c' ∷ b'h' ∷ b'e' ∷ b'.' ∷ b't' ∷ b'y' ∷ b'p' ∷ b'e'
    ∷ []

abbrev offset_bits_key : Bytes
offset_bits_key =
    b'a' ∷ b'x' ∷ b'o' ∷ b'n' ∷ b'c' ∷ b'a' ∷ b'c' ∷ b'h' ∷ b'e' ∷ b'.' ∷ b'o' ∷ b'f' ∷ b'f' ∷ b's'
    ∷ b'e' ∷ b't' ∷ b'_' ∷ b'b' ∷ b'i' ∷ b't' ∷ b's' ∷ []

abbrev key_slots_key : Bytes
key_slots_key =
    b'a' ∷ b'x' ∷ b'o' ∷ b'n' ∷ b'c' ∷ b'a' ∷ b'c' ∷ b'h' ∷ b'e' ∷ b'.' ∷ b'k' ∷ b'e' ∷ b'y' ∷ b'_'
    ∷ b's' ∷ b'l' ∷ b'o' ∷ b't' ∷ b's' ∷ []

abbrev max_load_factor_key : Bytes
max_load_factor_key =
    b'a' ∷ b'x' ∷ b'o' ∷ b'n' ∷ b'c' ∷ b'a' ∷ b'c' ∷ b'h' ∷ b'e' ∷ b'.' ∷ b'm' ∷ b'a' ∷ b'x' ∷ b'_'
    ∷ b'l' ∷ b'o' ∷ b'a' ∷ b'd' ∷ b'_' ∷ b'f' ∷ b'a' ∷ b'c' ∷ b't' ∷ b'o' ∷ b'r' ∷ []

abbrev output_dir_key : Bytes
output_dir_key =
    b'a' ∷ b'x' ∷ b'o' ∷ b'n' ∷ b'c' ∷ b'a' ∷ b'c' ∷ b'h' ∷ b'e' ∷ b'.' ∷ b'o' ∷ b'u' ∷ b't' ∷ b'p'
    ∷ b'u' ∷ b't' ∷ b'_' ∷ b'd' ∷ b'i' ∷ b'r' ∷ []

abbrev input_dir_key : Bytes
input_dir_key =
    b'a' ∷ b'x' ∷ b'o' ∷ b'n' ∷ b'c' ∷ b'a' ∷ b'c' ∷ b'h' ∷ b'e' ∷ b'.' ∷ b'i' ∷ b'n' ∷ b'p' ∷ b'u'
    ∷ b't' ∷ b'_' ∷ b'd' ∷ b'i' ∷ b'r' ∷ []

abbrev input_files_key : Bytes
input_files_key =
    b'a' ∷ b'x' ∷ b'o' ∷ b'n' ∷ b'c' ∷ b'a' ∷ b'c' ∷ b'h' ∷ b'e' ∷ b'.' ∷ b'i' ∷ b'n' ∷ b'p' ∷ b'u'
    ∷ b't' ∷ b'_' ∷ b'f' ∷ b'i' ∷ b'l' ∷ b'e' ∷ b's' ∷ []

abbrev default_cache_names : Bytes
default_cache_names = b'a' ∷ b'x' ∷ b'o' ∷ b'n' ∷ b'c' ∷ b'a' ∷ b'c' ∷ b'h' ∷ b'e' ∷ []

abbrev default_dir : Bytes
default_dir =
    b'/' ∷ b'v' ∷ b'a' ∷ b'r' ∷ b'/' ∷ b'l' ∷ b'i' ∷ b'b' ∷ b'/' ∷ b'a' ∷ b'p' ∷ b'p' ∷ b'l' ∷ b'o'
    ∷ b'v' ∷ b'i' ∷ b'n' ∷ b'/' ∷ b'd' ∷ b'a' ∷ b't' ∷ b'a' ∷ b'm' ∷ b'o' ∷ b'v' ∷ b'e' ∷ b'r' ∷ []

-- The key of a setting of one cache.
abbrev key_of_cache : Bytes → Bytes → Bytes
key_of_cache key cache_name = key ++ (b'.' ∷ cache_name)

-- The loop over the input files, which appends each name to the same directory.
unfoldable pub input_paths : Bytes → List Bytes → List Bytes
input_paths input_dir [] = []
input_paths input_dir (input_file ∷ input_files) =
    let path = input_dir ++ (b'/' ∷ input_file) in path ∷ input_paths path input_files

-- The offset bits when the settings have none.
abbrev default_offset_bits : ℕ → ℕ
default_offset_bits cache_type =
    if cache_type == cache_type_code bucket_chain
    then 64
    else (if cache_type == cache_type_code linear_probe then 35 else 0)

-- One turn of the constructor's loop.
unfoldable pub cache_args : DoubleParsers → List (Bytes × Bytes) → Bytes → CacheArgs
unfolding get_setting get_int get_double_setting input_paths get_lines
cache_args parsers settings cache_name =
    let cache_type =
      get_int settings (key_of_cache cache_type_key cache_name) (cache_type_code bucket_chain) in
    let offset_bits =
      get_int settings (key_of_cache offset_bits_key cache_name) (default_offset_bits cache_type) in
    let key_slots = get_int settings (key_of_cache key_slots_key cache_name) 1024 in
    record {
      offset_bits = offset_bits % 2 ^ 16;
      number_of_key_slots = sign_extended key_slots;
      max_load_factor =
          get_double_setting parsers settings (key_of_cache max_load_factor_key cache_name)
            4602678819172646912;
      cache_name = cache_name;
      cache_type = cache_type;
      output_directory = get_setting settings (key_of_cache output_dir_key cache_name) default_dir;
      input_files =
          input_paths (get_setting settings (key_of_cache input_dir_key cache_name) default_dir)
            (get_lines b',' [] (get_setting settings (key_of_cache input_files_key cache_name) []));
    }

-- `CacheGenerator( settings )`
unfoldable pub new_generator : DoubleParsers → List (Bytes × Bytes) → List CacheArgs
unfolding cache_args get_lines get_setting
new_generator parsers settings =
    map (cache_args parsers settings)
      (get_lines b',' [] (get_setting settings cache_names_key default_cache_names))
