-- ===== src/Ram/Encoding.antt =====
-- Little-endian numbers as byte strings, and strings inside the memory.
use axon_cache.Prelude.{
  ℕ, zero, suc, ◌+◌, ◌/◌, ◌^◌, ◌<◌, ◌≡◌, refl, sym, ap, ◌∙◌, [], ◌∷◌, ◌++◌, Bytes, length, arith,
}
use native.Mathlib.Nat.{pow-suc}
use axon_cache.Ram.{Ram, load, view, le, from_le}

pub length-le : (w v : ℕ) → length (le w v) ≡ w
unfolding le
length-le zero v = refl
length-le (suc w) v = ap suc (length-le w (v / 256))

pub from_le-le : (w v : ℕ) → v < 256 ^ w → from_le (le w v) ≡ v
unfolding le from_le
from_le-le zero v h = omega arith
from_le-le (suc w) v h =
    omega (arith, pow-suc 256 w, from_le-le w (v / 256) (omega (arith, pow-suc 256 w)))

pub load-view : (w : ℕ) (m : Ram) (a : ℕ) → load w m a ≡ from_le (view m a w)
unfolding load view from_le
load-view zero m a = refl
load-view (suc w) m a = omega (arith, load-view w m (suc a))

-- The text `bs` stands at `a`.
pub data At (m : Ram) : ℕ → Bytes → Type 0 where
  at_end : {a : ℕ} → At m a []
  at_byte : {a b : ℕ} {bs : Bytes} → m a ≡ b → At m (suc a) bs → At m a (b ∷ bs)

pub At-view : (m : Ram) (a : ℕ) (bs : Bytes) → At m a bs → view m a (length bs) ≡ bs
unfolding view
At-view m a [] h = refl
At-view m a (b ∷ bs) (at_byte e h) = cc (e, At-view m (suc a) bs h)

pub view-At : (m : Ram) (a : ℕ) (bs : Bytes) → view m a (length bs) ≡ bs → At m a bs
unfolding view
view-At m a [] h = at_end
view-At m a (b ∷ bs) h = at_byte (cc h) (view-At m (suc a) bs (cc h))

pub At-left : (m : Ram) (a : ℕ) (xs ys : Bytes) → At m a (xs ++ ys) → At m a xs
At-left m a [] ys h = at_end
At-left m a (x ∷ xs) ys (at_byte e h) = at_byte e (At-left m (suc a) xs ys h)

pub At-right :
    (m : Ram) (a c : ℕ) (xs ys : Bytes) → c ≡ a + length xs → At m a (xs ++ ys) → At m c ys
At-right m a c [] ys e h = let same : c ≡ a = omega arith in rw same h
At-right m a c (x ∷ xs) ys e (at_byte _ h) = At-right m (suc a) c xs ys (omega arith) h

-- A number that stands in the memory in little-endian order is what a load reads.
pub load-At : (w : ℕ) (m : Ram) (a v : ℕ) → v < 256 ^ w → At m a (le w v) → load w m a ≡ v
load-At w m a v small h =
    load-view w m a
    ∙ ap from_le (ap (view m a) (sym (length-le w v)) ∙ At-view m a (le w v) h)
    ∙ from_le-le w v small
