-- ===== src/Dedup/Values.antt =====
-- The frequent values that are set are the ones that are kept
-- (include/axoncache/cache/LinearProbeDedupCache.h).
use axon_cache.Prelude.{
  ℕ, ◌+◌, ◌*◌, ◌^◌, ◌≤◌, ◌<◌, ◌≡◌, refl, sym, ap, ◌∙◌, subst, inl, false, List, [], ◌∷◌, Bytes,
  none, some, length, ltb, ok, u16, arith,
}
use axon_cache.Ram.{Ram, view, copy}
use axon_cache.Ram.Laws.{Agree, copy_frame, view-Agree, view-copy}
use axon_cache.Memory.{Memory, new_malloc}
use axon_cache.Memory.Laws.{IsHeap, Grown, grow-Grown}
use axon_cache.Dedup.{
  DedupCache, grow_values, collect_values, set_duplicated_values, get_duplicated_values,
  memory_capacity_bytes, emplace,
}

-- The bytes that the values need.
abbrev pub total : List Bytes → ℕ
total [] = 0
total (value ∷ values) = length value + total values

-- The values stand one behind the other from `ptr` on.
abbrev pub Stand : Ram → ℕ → List Bytes → Type 0
Stand m ptr [] = Unit {0}
Stand m ptr (value ∷ values) =
    (view m ptr (length value) ≡ value) × Stand m (ptr + length value) values

collect_values-Stand :
    (m : Ram) (ptr index : ℕ) (values : List Bytes) (entries : List (Bytes × ℕ))
    → Stand m ptr values
    → (collect_values m ptr index values entries).0 ≡ values
unfolding collect_values
collect_values-Stand m ptr index [] entries s = refl
collect_values-Stand m ptr index (value ∷ values) entries (here, s) = cc (
  here,
  collect_values-Stand m (ptr + length value) (u16 (index + 1)) values
      (emplace entries (view m ptr (length value)) index) s,
)

-- A value that was copied into grown memory stays where it is while what follows is written.
Grown-Stand :
    (m g r : Memory) (ptr : ℕ) (value : Bytes) (values : List Bytes)
    → Grown m (length value) (ptr, g)
    → Stand r.bytes g.data_size values
    → Agree (copy g.bytes ptr value) r.bytes 0 g.data_size
    → Stand r.bytes m.data_size (value ∷ values) × Agree m.bytes r.bytes 0 m.data_size
Grown-Stand m g r ptr value values grown stand agree =
    let copied : view (copy g.bytes ptr value) m.data_size (length value) ≡ value =
      ap (λ (a : ℕ). view (copy g.bytes ptr value) a (length value)) (sym grown.offset)
      ∙ view-copy g.bytes ptr value in
    let kept =
      view-Agree (copy g.bytes ptr value) r.bytes m.data_size (length value)
        (λ x lo hi. agree x (omega arith) (omega (arith, grown.size))) in
    (
      (sym kept ∙ copied, subst (λ (n : ℕ). Stand r.bytes n values) grown.size stand),
      λ x lo hi.
          ap (λ (b : Ram). b x) (sym grown.kept)
          ∙ sym (copy_frame g.bytes ptr value x (inl (omega (arith, grown.offset))))
          ∙ agree x lo (omega (arith, grown.size)),
    )

-- The loop over the values ends, keeps the bytes before them, and leaves them one behind the other. The
-- limit bounds the sizes and the capacities that come up.
grow_values-Stand :
    (limit : ℕ) (values : List Bytes) (m : Memory)
    → limit < 2 ^ 62
    → IsHeap m
    → m.data_size + total values ≤ limit
    → m.real_data_size ≤ 2 * limit + 2048
    → (r : Memory) × (grow_values values m ≡ ok r)
      × Stand r.bytes m.data_size values
      × Agree m.bytes r.bytes 0 m.data_size
unfolding grow_values
grow_values-Stand limit [] m small v room capped = (m, refl, tt, λ x lo hi. refl)
grow_values-Stand limit (value ∷ values) m small v room capped =
    let ((ptr, g), run, grown) = grow-Grown m (length value) v (omega arith) in
    let next : Memory = record g { bytes = copy g.bytes ptr value } in
    let (r, rest, stand, agree) =
      grow_values-Stand limit values next small
        (record { heap = grown.valid.heap; fits = grown.valid.fits }) (omega (arith, grown.size))
        (omega (arith, grown.capacity, grown.size)) in
    let (whole, outside) = Grown-Stand m g r ptr value values grown stand agree in
    (r, rw run rest, whole, outside)

new_malloc-IsHeap : (capacity : ℕ) → IsHeap (new_malloc capacity)
unfolding new_malloc
new_malloc-IsHeap capacity = record { heap = refl; fits = omega arith }

-- The values stand in the memory that the cache then has, and the views and the index come from it.
pub set_duplicated_values-Stand :
    (values : List Bytes) (c : DedupCache)
    → length values ≤ 65536
    → total values < 2 ^ 62
    → c.is_values_loaded ≡ false
    → c.values_memory ≡ none
    → (m : Memory) × Stand m.bytes 0 values
      × (set_duplicated_values values c ≡ (
        ok tt,
        record c {
          values = values;
          values_to_index = (collect_values m.bytes 0 0 values []).1;
          values_memory = some m;
        },
      ))
unfolding set_duplicated_values
set_duplicated_values-Stand values c few small unloaded unset =
    let start = new_malloc memory_capacity_bytes in
    let (memory, run, stand, _) =
      grow_values-Stand (total values) values start small (new_malloc-IsHeap _)
        (unfold new_malloc in omega arith) (unfold new_malloc in omega arith) in
    let stands : Stand memory.bytes 0 values = unfold new_malloc in stand in
    let collected = collect_values-Stand memory.bytes 0 0 values [] stands in
    let allowed : ltb 65536 (length values) ≡ false = ground arith in
    (memory, stands, rw (allowed, unloaded, unset, run, collected) refl)

-- Setting at most 65536 values of fewer than 2^62 bytes together, in a cache that neither loaded nor
-- set any, ends normally, and `getDuplicatedValues` then returns these values in their
-- order; the table of keys is not touched.
pub set_duplicated_values-get_duplicated_values :
    (values : List Bytes) (c : DedupCache)
    → length values ≤ 65536
    → total values < 2 ^ 62
    → c.is_values_loaded ≡ false
    → c.values_memory ≡ none
    → (c' : DedupCache) × (set_duplicated_values values c ≡ (ok tt, c'))
      × (get_duplicated_values c' ≡ values)
      × (c'.cache ≡ c.cache)
set_duplicated_values-get_duplicated_values values c few small unloaded unset =
    let (_, _, run) = set_duplicated_values-Stand values c few small unloaded unset in
    (_, run, refl, refl)
