-- ===== src/Dedup/File/Table.antt =====
-- The table of frequent values is read back (src/axoncache/cache/LinearProbeDedupCache.cpp).
use axon_cache.Prelude.{
  ℕ, zero, suc, ◌+◌, ◌%◌, ◌*◌, ◌^◌, ◌<◌, ◌≡◌, refl, ap, ◌∙◌, List, [], ◌∷◌, ◌++◌, Bytes, length,
  length-append, All, u32, arith,
}
use axon_cache.Ram.{Ram, view, load, le}
use axon_cache.Ram.Encoding.{At, At-left, At-right, At-view, load-At, length-le}
use axon_cache.Dedup.{emplace}
use axon_cache.Dedup.Values.{total, Stand}
use axon_cache.Dedup.File.{lengths_bytes, check_size, load_lengths, load_values}

abbrev pub concat : List Bytes → Bytes
concat [] = []
concat (value ∷ values) = value ++ concat values

abbrev pub lengths_of : List Bytes → List ℕ
lengths_of [] = []
lengths_of (value ∷ values) = length value ∷ lengths_of values

abbrev pub FitLengths : List Bytes → Type 0
FitLengths = All (λ value. length value < 256 ^ 4)

pub length-concat : (values : List Bytes) → length (concat values) ≡ total values
length-concat [] = refl
length-concat (value ∷ values) =
    omega (arith, length-append value (concat values), length-concat values)

pub length-lengths_bytes : (values : List Bytes) → length (lengths_bytes values) ≡ length values * 4
unfolding lengths_bytes
length-lengths_bytes [] = refl
length-lengths_bytes (value ∷ values) = omega (
  arith,
  length-append (le 4 (u32 (length value))) (lengths_bytes values),
  length-le 4 (u32 (length value)),
  length-lengths_bytes values,
)

pub load_lengths-At :
    (m : Ram) (a : ℕ) (values : List Bytes)
    → FitLengths values
    → At m a (lengths_bytes values)
    → load_lengths m (length values) a ≡ lengths_of values
unfolding load_lengths lengths_bytes
load_lengths-At m a [] fit at = refl
load_lengths-At m a (value ∷ values) (short, fit) at =
    let narrow : u32 (length value) ≡ length value = omega arith in
    let here : At m a (le 4 (u32 (length value))) =
      At-left m a (le 4 (u32 (length value))) (lengths_bytes values) at in
    let rest =
      At-right m a (a + 4) (le 4 (u32 (length value))) (lengths_bytes values)
        (omega (arith, length-le 4 (u32 (length value)))) at in
    let first : load 4 m a ≡ length value =
      load-At 4 m a (u32 (length value)) (omega arith) here ∙ narrow in
    cc (first, load_lengths-At m (a + 4) values fit rest)

pub load_values-At :
    (m : Ram) (a index : ℕ) (values : List Bytes) (entries : List (Bytes × ℕ))
    → At m a (concat values)
    → ((load_values m a index (lengths_of values) entries).0 ≡ values)
      × ((load_values m a index (lengths_of values) entries).2 ≡ a + total values)
unfolding load_values
load_values-At m a index [] entries at = (refl, omega arith)
load_values-At m a index (value ∷ values) entries at =
    let here : view m a (length value) ≡ value =
      At-view m a value (At-left m a value (concat values) at) in
    let (rest, end) =
      load_values-At m (a + length value) ((index + 1) % 2 ^ 8) values
        (emplace entries (view m a (length value)) index)
        (At-right m a (a + length value) value (concat values) refl at) in
    (cc (here, rest), omega (arith, end))

view-append :
    (m : Ram) (a n k s b : ℕ) → s ≡ n + k → b ≡ a + n → view m a s ≡ view m a n ++ view m b k
unfolding view
view-append m a zero k s b e f =
    let all : s ≡ k = omega arith in let same : b ≡ a = omega arith in rw (all, same)
view-append m a (suc n) k zero b e f = absurd (omega arith)
view-append m a (suc n) k (suc s) b e f =
    ap (λ (t : Bytes). m a ∷ t) (view-append m (suc a) n k s b (omega arith) (omega arith))

pub Stand-concat :
    (m : Ram) (a : ℕ) (values : List Bytes)
    → Stand m a values
    → view m a (total values) ≡ concat values
unfolding view
Stand-concat m a [] s = refl
Stand-concat m a (value ∷ values) (here, s) =
    view-append m a (length value) (total values) _ _ refl refl
    ∙ ap (λ (t : Bytes). t ++ view m (a + length value) (total values)) here
    ∙ ap (λ (t : Bytes). value ++ t) (Stand-concat m (a + length value) values s)

pub check_size-total :
    (values : List Bytes) → total values < 2 ^ 64 → check_size values ≡ total values
unfolding check_size
check_size-total [] h = refl
check_size-total (value ∷ values) h = omega (arith, check_size-total values (omega arith))
