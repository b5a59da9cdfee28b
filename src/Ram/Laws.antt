-- ===== src/Ram/Laws.antt =====
-- What a read sees after a write, and what a write leaves alone.
use axon_cache.Prelude.{
  ℕ, zero, suc, ◌+◌, ◌/◌, ◌%◌, ◌^◌, ◌≤◌, ◌<◌, ◌≡◌, refl, ◌⊎◌, inl, [], ◌∷◌, Bytes, bytes_eq, length,
  arith,
}
use native.Mathlib.Nat.{pow-suc}
use axon_cache.Ram.{Ram, poke, load, store, copy, view, memcmp_eq}

-- The two memories hold the same bytes at offsets from `lo` up to `hi`.
abbrev pub Agree : Ram → Ram → ℕ → ℕ → Type 0
Agree m n lo hi = (x : ℕ) → lo ≤ x → x < hi → m x ≡ n x

abbrev pub Outside : ℕ → ℕ → ℕ → Type 0
Outside x lo hi = (x < lo) ⊎ (hi ≤ x)

pub store_frame : (w : ℕ) (m : Ram) (a v x : ℕ) → Outside x a (a + w) → store w m a v x ≡ m x
unfolding store
store_frame zero m a v x h = refl
store_frame (suc w) m a v x h =
    ground (arith, store_frame w (poke m a (v % 256)) (suc a) (v / 256) x)

pub copy_frame :
    (m : Ram) (a : ℕ) (bs : Bytes) (x : ℕ) → Outside x a (a + length bs) → copy m a bs x ≡ m x
unfolding copy
copy_frame m a [] x h = refl
copy_frame m a (b ∷ bs) x h = ground (arith, copy_frame (poke m a b) (suc a) bs x)

pub load-Agree : (w : ℕ) (m n : Ram) (a : ℕ) → Agree m n a (a + w) → load w m a ≡ load w n a
unfolding load
load-Agree zero m n a h = refl
load-Agree (suc w) m n a h = omega (
  arith,
  h a (omega arith) (omega arith),
  load-Agree w m n (suc a) (λ x lo hi. h x (omega arith) (omega arith)),
)

pub view-Agree : (m n : Ram) (a k : ℕ) → Agree m n a (a + k) → view m a k ≡ view n a k
unfolding view
view-Agree m n a zero h = refl
view-Agree m n a (suc k) h = cc (
  h a (omega arith) (omega arith),
  view-Agree m n (suc a) k (λ x lo hi. h x (omega arith) (omega arith)),
)

-- A stored number that fits its width reads back.
pub load-store : (w : ℕ) (m : Ram) (a v : ℕ) → v < 256 ^ w → load w (store w m a v) a ≡ v
unfolding load store
load-store zero m a v h = omega arith
load-store (suc w) m a v h = ground (
  arith,
  pow-suc 256 w,
  store_frame w (poke m a (v % 256)) (suc a) (v / 256) a,
  load-store w (poke m a (v % 256)) (suc a) (v / 256) (omega (arith, pow-suc 256 w)),
)

pub load-lt : (w : ℕ) (m : Ram) (a : ℕ) → ((x : ℕ) → m x < 256) → load w m a < 256 ^ w
unfolding load
load-lt zero m a h = omega arith
load-lt (suc w) m a h = omega (arith, pow-suc 256 w, h a, load-lt w m (suc a) h)

-- A copied string reads back.
pub view-copy : (m : Ram) (a : ℕ) (bs : Bytes) → view (copy m a bs) a (length bs) ≡ bs
unfolding view copy
view-copy m a [] = refl
view-copy m a (b ∷ bs) = cc (
  copy_frame (poke m a b) (suc a) bs a (inl (omega arith)),
  view-copy (poke m a b) (suc a) bs,
  poke_self m a b,
)
  where
    poke_self : (m : Ram) (a b : ℕ) → poke m a b a ≡ b
    poke_self m a b = ground arith

-- `memcmp` compares what a view of that length would show.
pub memcmp_eq-view :
    (m : Ram) (a : ℕ) (bs : Bytes) → memcmp_eq m a bs ≡ bytes_eq (view m a (length bs)) bs
unfolding memcmp_eq view
memcmp_eq-view m a [] = refl
memcmp_eq-view m a (b ∷ bs) = rw (memcmp_eq-view m (suc a) bs)
