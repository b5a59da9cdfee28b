-- ===== src/Tests/Conf.antt =====
-- Settings files and the caches that they ask for.
use axon_cache.Prelude.{◌≡◌, refl, [], ◌∷◌, Bytes, some, none}
use axon_cache.Build.{get_lines}
use axon_cache.Settings.{get_setting, new_settings, split_first_occurence, has_char, trim, c_str}
use axon_cache.Settings.Laws.{get_setting-last_value}
use axon_cache.Generator.{input_paths}
use axon_cache.Tests.Linear.{key_a, key_b}

-- Three settings, of which the last two have the same name, and a comment.
abbrev settings_file : Bytes
settings_file =
    b'b' ∷ b'=' ∷ b'u' ∷ 10 ∷ b'a' ∷ 32 ∷ b'=' ∷ 9 ∷ b'x' ∷ 10 ∷ b'a' ∷ b'=' ∷ b'y' ∷ b'=' ∷ 13 ∷ 10
    ∷ b'#' ∷ b'a' ∷ b'=' ∷ b'z' ∷ []

get_setting-last_value_example :
    get_setting (new_settings (some settings_file)) key_a [] ≡ b'y' ∷ b'=' ∷ []
unfolding get_lines split_first_occurence has_char trim c_str
get_setting-last_value_example = get_setting-last_value settings_file key_a []

missing_run : get_setting (new_settings none) key_a key_b ≡ key_b
unfolding get_setting new_settings
missing_run = refl

-- The second path has the first file's name in it.
paths_run :
    input_paths key_a (key_b ∷ key_a ∷ [])
    ≡ (b'a' ∷ b'/' ∷ b'b' ∷ []) ∷ (b'a' ∷ b'/' ∷ b'b' ∷ b'/' ∷ b'a' ∷ []) ∷ []
unfolding input_paths
paths_run = refl
