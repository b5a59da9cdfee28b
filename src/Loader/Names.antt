-- ===== src/Loader/Names.antt =====
-- The names of cache files, and the timestamp in them (include/axoncache/loader/CacheOneTimeLoader.h,
-- src/axoncache/loader/CacheOneTimeLoader.cpp).
use axon_cache.Prelude.{
  throw, ok, leb, Result, some, none, Option, is_empty, could_not_open, empty_timestamp,
  if◌then◌else◌, Bool, ◌&&◌, ℕ, zero, suc, ◌+◌, ◌-◌, ◌^◌, ◌<◌, ◌≡◌, refl, sym, ap, ◌∙◌, [], ◌∷◌,
  ◌++◌, Bytes, length, length-append, arith, true, false, u64, Bool-cases, inl, inr, subst,
}
use mathlib.Core.List.{append_assoc}

abbrev pub is_digit : ℕ → Bool
is_digit c = leb b'0' c && leb c b'9'

abbrev pub all_digits : Bytes → Bool
all_digits [] = true
all_digits (c ∷ s) = is_digit c && all_digits s

-- `s.substr( s.find_last_not_of( "0123456789" ) + 1 )`
unfoldable pub digits_at_end : Bytes → Bytes
digits_at_end [] = []
digits_at_end (c ∷ s) = if all_digits (c ∷ s) then c ∷ s else digits_at_end s

unfoldable pub take : ℕ → Bytes → Bytes
take zero s = []
take (suc n) [] = []
take (suc n) (c ∷ s) = c ∷ take n s

abbrev pub file_name_suffix : Bytes
file_name_suffix = b'.' ∷ b'c' ∷ b'a' ∷ b'c' ∷ b'h' ∷ b'e' ∷ []

-- `getFullCacheFileName`, for the directory that the settings give
unfoldable pub full_cache_file_name : Bytes → Bytes → Bytes
full_cache_file_name load_dir cache_name =
    load_dir ++ ((b'/' ∷ []) ++ (cache_name ++ file_name_suffix))

-- The name of a cache file, for the text of a timestamp
unfoldable pub timestamp_full_cache_file_name : Bytes → Bytes → Bytes → Bytes
timestamp_full_cache_file_name load_dir cache_name timestamp =
    load_dir ++ ((b'/' ∷ []) ++ (cache_name ++ ((b'.' ∷ []) ++ (timestamp ++ file_name_suffix))))

-- `getLatestTimestampFullCacheFileName`, over what the file with the timestamp has
unfoldable pub latest_timestamp_full_cache_file_name : Bytes → Bytes → Option Bytes → Result Bytes
unfolding timestamp_full_cache_file_name
latest_timestamp_full_cache_file_name load_dir cache_name none = throw could_not_open
latest_timestamp_full_cache_file_name load_dir cache_name (some timestamp) =
    if is_empty timestamp
    then throw empty_timestamp
    else ok (timestamp_full_cache_file_name load_dir cache_name timestamp)

-- `mTimestamp`
unfoldable pub timestamp_of : Bytes → Bytes
unfolding digits_at_end take
timestamp_of file_name =
    digits_at_end (take (u64 (length file_name + 2 ^ 64 - length file_name_suffix)) file_name)

take-append : (xs ys : Bytes) (n : ℕ) → n ≡ length xs → take n (xs ++ ys) ≡ xs
unfolding take
take-append [] ys zero e = refl
take-append [] ys (suc n) e = absurd (omega arith)
take-append (x ∷ xs) ys zero e = absurd (omega arith)
take-append (x ∷ xs) ys (suc n) e = ap (λ (t : Bytes). x ∷ t) (take-append xs ys n (omega arith))

digits_at_end_all : (ds : Bytes) → all_digits ds ≡ true → digits_at_end ds ≡ ds
unfolding digits_at_end
digits_at_end_all [] h = refl
digits_at_end_all (d ∷ ds) h = rw h refl

-- A character that is no digit ends the search.
all_digits-append :
    (xs ds : Bytes) (c : ℕ) → is_digit c ≡ false → all_digits (xs ++ (c ∷ ds)) ≡ false
all_digits-append [] ds c h = rw h refl
all_digits-append (x ∷ xs) ds c h = elim (Bool-cases (is_digit x)) [
  | inl e ↦ rw e (all_digits-append xs ds c h)
  | inr e ↦ rw e refl
]

digits_at_end-append :
    (xs ds : Bytes) (c : ℕ)
    → is_digit c ≡ false
    → all_digits ds ≡ true
    → digits_at_end (xs ++ (c ∷ ds)) ≡ ds
unfolding digits_at_end
digits_at_end-append [] ds c h all = rw h (digits_at_end_all ds all)
digits_at_end-append (x ∷ xs) ds c h all =
    rw (all_digits-append (x ∷ xs) ds c h) (digits_at_end-append xs ds c h all)

-- The suffix is cut off.
timestamp_of-append :
    (stem : Bytes)
    → length (stem ++ file_name_suffix) < 2 ^ 64
    → timestamp_of (stem ++ file_name_suffix) ≡ digits_at_end stem
unfolding timestamp_of
timestamp_of-append stem small =
    let cut : u64 (length (stem ++ file_name_suffix) + 2 ^ 64 - length file_name_suffix)
        ≡ length stem =
      omega (arith, length-append stem file_name_suffix) in
    ap digits_at_end (take-append stem file_name_suffix _ cut)

name_split :
    (load_dir cache_name timestamp : Bytes)
    → (load_dir ++ ((b'/' ∷ cache_name) ++ (b'.' ∷ timestamp))) ++ file_name_suffix
      ≡ timestamp_full_cache_file_name load_dir cache_name timestamp
unfolding timestamp_full_cache_file_name
name_split load_dir cache_name timestamp =
    append_assoc load_dir ((b'/' ∷ cache_name) ++ (b'.' ∷ timestamp)) file_name_suffix
    ∙ ap (λ (t : Bytes). load_dir ++ (b'/' ∷ t))
        (append_assoc cache_name (b'.' ∷ timestamp) file_name_suffix)

-- The timestamp that the loader takes from the name of a cache file is the timestamp of digits that the
-- name was made with, if the name has fewer than 2^64 characters.
pub timestamp_of-timestamp_full_cache_file_name :
    (load_dir cache_name timestamp : Bytes)
    → all_digits timestamp ≡ true
    → length (timestamp_full_cache_file_name load_dir cache_name timestamp) < 2 ^ 64
    → timestamp_of (timestamp_full_cache_file_name load_dir cache_name timestamp) ≡ timestamp
timestamp_of-timestamp_full_cache_file_name load_dir cache_name timestamp all small =
    let split = name_split load_dir cache_name timestamp in
    let stem = load_dir ++ (b'/' ∷ cache_name) in
    let joined : load_dir ++ ((b'/' ∷ cache_name) ++ (b'.' ∷ timestamp))
        ≡ stem ++ (b'.' ∷ timestamp) =
      sym (append_assoc load_dir (b'/' ∷ cache_name) (b'.' ∷ timestamp)) in
    ap timestamp_of (sym split)
    ∙ timestamp_of-append _ (subst (λ (t : Bytes). length t < 2 ^ 64) (sym split) small)
    ∙ ap digits_at_end joined
    ∙ digits_at_end-append stem timestamp b'.' refl all
