-- ===== src/Prelude/Sort.antt =====
-- Insertion by a Boolean order, for what the source sorts by sort.Slice. Ties keep their order.
use chartly.Prelude.Lists.{length}
use chartly.Prelude.Tests.{Bool-cases, if◌then◌else◌}
use Prim.Native.Nat.{ℕ, suc, ◌≤◌}
use mathlib.Core.Path.{◌≡◌, refl, ap, ◌∙◌}
use mathlib.Core.Bool.{Bool, true, false}
use mathlib.Core.Logic.{inl, inr}
use mathlib.Core.List.{List, [], ◌∷◌}
use native.Mathlib.Omega.{arith}

module _ {ℓ} {A : Type ℓ} (less : A → A → Bool) where
  unfoldable pub place_by : A → List A → List A
  place_by x [] = x ∷ []
  place_by x (y ∷ ys) = let rest = place_by x ys in if less y x then y ∷ rest else x ∷ y ∷ ys

  unfoldable pub sort_by : List A → List A
  unfolding place_by
  sort_by [] = []
  sort_by (x ∷ xs) = place_by x (sort_by xs)

  length-place_by : (x : A) (xs : List A) → length (place_by x xs) ≡ suc (length xs)
  unfolding place_by
  length-place_by x [] = refl
  length-place_by x (y ∷ ys) = ground (arith, length-place_by x ys)

  pub length-sort_by : (xs : List A) → length (sort_by xs) ≡ length xs
  unfolding sort_by
  length-sort_by [] = refl
  length-sort_by (x ∷ xs) = length-place_by x (sort_by xs) ∙ ap suc (length-sort_by xs)

  -- A measure that the order does not contradict goes up along the sorted list.
  module _ (measure : A → ℕ) (up : (a b : A) → less a b ≡ true → measure a ≤ measure b)
      (down : (a b : A) → less a b ≡ false → measure b ≤ measure a) where
    abbrev pub IsAscending : List A → Type 0
    IsAscending [] = Unit
    IsAscending (x ∷ []) = Unit
    IsAscending (x ∷ y ∷ ys) = (measure x ≤ measure y) × IsAscending (y ∷ ys)

    place_by-IsAscending_cons :
        (z x : A) (xs : List A)
        → measure z ≤ measure x
        → IsAscending (z ∷ xs)
        → IsAscending (z ∷ place_by x xs)
    unfolding place_by
    place_by-IsAscending_cons z x [] h s = (h, tt)
    place_by-IsAscending_cons z x (y ∷ ys) h s = elim (Bool-cases (less y x)) [
      | inl e ↦ rw e (s.0, place_by-IsAscending_cons y x ys (up y x e) s.1)
      | inr e ↦ rw e (h, (down y x e, s.1))
    ]

    place_by-IsAscending : (x : A) (xs : List A) → IsAscending xs → IsAscending (place_by x xs)
    unfolding place_by
    place_by-IsAscending x [] s = tt
    place_by-IsAscending x (y ∷ ys) s = elim (Bool-cases (less y x)) [
      | inl e ↦ rw e (place_by-IsAscending_cons y x ys (up y x e) s)
      | inr e ↦ rw e (down y x e, s)
    ]

    pub sort_by-IsAscending : (xs : List A) → IsAscending (sort_by xs)
    unfolding sort_by
    sort_by-IsAscending [] = tt
    sort_by-IsAscending (x ∷ xs) = place_by-IsAscending x (sort_by xs) (sort_by-IsAscending xs)
