-- ===== src/Views/Trim.antt =====
-- Trimming a view (include/axoncache/common/StringViewUtils.h).
use axon_cache.Prelude.{
  ℕ, ◌≡◌, refl, ap, ◌∙◌, inl, inr, [], ◌∷◌, ◌++◌, Bytes, All, Bool, true, false, Bool-cases,
}
use axon_cache.Views.{
  drop_front, drop_back, cons_kept, is_space, is_any_of, trim_spaces, string_view_trim,
}

abbrev pub AllOf : (ℕ → Bool) → Bytes → Type 0
AllOf p = All (λ c. p c ≡ true)

-- Neither the first character nor the last one is of the class.
abbrev pub IsKeptFront : (ℕ → Bool) → Bytes → Type 0
IsKeptFront p [] = Unit {0}
IsKeptFront p (c ∷ rest) = p c ≡ false

abbrev pub IsKeptBack : (ℕ → Bool) → Bytes → Type 0
IsKeptBack p [] = Unit {0}
IsKeptBack p (c ∷ []) = p c ≡ false
IsKeptBack p (c ∷ (d ∷ rest)) = IsKeptBack p (d ∷ rest)

-- The view that a trim leaves of an input: what is cut off on either side is of the class, and what
-- is left neither begins nor ends with the class.
pub record IsTrim (p : ℕ → Bool) (input view : Bytes) : Type 0 where
  pub before : Bytes
  pub after : Bytes
  pub whole : before ++ (view ++ after) ≡ input
  pub before_all : AllOf p before
  pub after_all : AllOf p after
  pub kept_front : IsKeptFront p view
  pub kept_back : IsKeptBack p view

module _ (p : ℕ → Bool) where
  drop_front-cut :
      (input : Bytes)
      → (before : Bytes) × (before ++ drop_front p input ≡ input)
        × AllOf p before
        × IsKeptFront p (drop_front p input)
  unfolding drop_front
  drop_front-cut [] = ([], refl, tt, tt)
  drop_front-cut (c ∷ rest) = elim (Bool-cases (p c)) [
    | inl e ↦
        let (before, whole, all, kept) = drop_front-cut rest in
        (
          c ∷ before,
          rw (drop_front, e) (ap (λ (t : Bytes). c ∷ t) whole),
          (e, all),
          rw (drop_front, e) kept,
        )
    | inr e ↦ ([], rw (drop_front, e), tt, rw (drop_front, e) e)
  ]

  -- The end of a trimmed view, one character further to the left.
  cons_kept-cut :
      (c : ℕ) (kept after rest : Bytes)
      → kept ++ after ≡ rest
      → AllOf p after
      → IsKeptBack p kept
      → (after' : Bytes) × (cons_kept p c kept ++ after' ≡ c ∷ rest)
        × AllOf p after'
        × IsKeptBack p (cons_kept p c kept)
  cons_kept-cut c [] after rest e all back = elim (Bool-cases (p c)) [
    | inl is ↦ (c ∷ after, rw is (ap (λ (t : Bytes). c ∷ t) e), (is, all), rw is tt)
    | inr not ↦ (after, rw not (ap (λ (t : Bytes). c ∷ t) e), all, rw not not)
  ]
  cons_kept-cut c (d ∷ kept) after rest e all back = (after, ap (λ (t : Bytes). c ∷ t) e, all, back)

  cons_kept-IsKeptFront : (c : ℕ) (kept : Bytes) → p c ≡ false → IsKeptFront p (cons_kept p c kept)
  cons_kept-IsKeptFront c [] e = rw e e
  cons_kept-IsKeptFront c (d ∷ kept) e = e

  drop_back-IsKeptFront : (input : Bytes) → IsKeptFront p input → IsKeptFront p (drop_back p input)
  unfolding drop_back
  drop_back-IsKeptFront [] e = tt
  drop_back-IsKeptFront (c ∷ rest) e = cons_kept-IsKeptFront c (drop_back p rest) e

  drop_back-cut :
      (input : Bytes)
      → (after : Bytes) × (drop_back p input ++ after ≡ input)
        × AllOf p after
        × IsKeptBack p (drop_back p input)
  unfolding drop_back
  drop_back-cut [] = ([], refl, tt, tt)
  drop_back-cut (c ∷ rest) =
      let (after, whole, all, back) = drop_back-cut rest in
      cons_kept-cut c (drop_back p rest) after rest whole all back

  trimmed : (input : Bytes) → IsTrim p input (drop_back p (drop_front p input))
  trimmed input =
      let (before, front_whole, before_all, kept) = drop_front-cut input in
      let (after, back_whole, after_all, back) = drop_back-cut (drop_front p input) in
      record {
        before = before;
        after = after;
        whole = ap (λ (t : Bytes). before ++ t) back_whole ∙ front_whole;
        before_all = before_all;
        after_all = after_all;
        kept_front = drop_back-IsKeptFront (drop_front p input) kept;
        kept_back = back;
      }

-- `trimSpaces` cuts spaces off either side of the view, and leaves a view that neither begins nor ends
-- with a space.
pub trim_spaces-IsTrim : (input : Bytes) → IsTrim is_space input (trim_spaces input)
unfolding trim_spaces
trim_spaces-IsTrim input = trimmed is_space input

-- `stringViewTrim` cuts the given characters off either side of the view, and leaves a view that
-- neither begins nor ends with one of them.
pub string_view_trim-IsTrim :
    (chars input : Bytes) → IsTrim (is_any_of chars) input (string_view_trim chars input)
unfolding string_view_trim
string_view_trim-IsTrim chars input = trimmed (is_any_of chars) input
