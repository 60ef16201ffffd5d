-- ===== src/Text/Unique.antt =====
-- Sorted lists of strings are told apart by how often each string stands in them.
use chartly.Prelude.{
  ◌<◌, ◌≡◌, refl, ap, sym, ◌∙◌, false, List, [], ◌∷◌, arith, All, All-imp, Bool-cases, inl, inr,
}
use mathlib.Core.Path.{subst}
use chartly.Text.{Text, text_eq, text_lt}
use chartly.Text.Laws.{text_eq_iff, text_eq_refl}
use chartly.Text.Order.{text_lt_asym, text_lt_antisym, text_lt_trans}
use chartly.Text.Sort.{count, place, sort, count-sort}

abbrev AreSorted : List Text → Type 0
AreSorted [] = Unit
AreSorted (x ∷ xs) = All (λ y. text_lt y x ≡ false) xs × AreSorted xs

text_lt_refl : (x : Text) → text_lt x x ≡ false
text_lt_refl x = elim (Bool-cases (text_lt x x)) [
  | inl less ↦ text_lt_asym x x less
  | inr not ↦ not
]

All-place : (P : Text → Type 0) (x : Text) (xs : List Text) → P x → All P xs → All P (place x xs)
unfolding place
All-place P x [] h hs = (h, tt)
All-place P x (y ∷ ys) h hs = elim (Bool-cases (text_lt y x)) [
  | inl e ↦ rw e (hs.0, All-place P x ys h hs.1)
  | inr n ↦ rw n (h, hs)
]

place-AreSorted : (x : Text) (xs : List Text) → AreSorted xs → AreSorted (place x xs)
unfolding place
place-AreSorted x [] h = (tt, tt)
place-AreSorted x (y ∷ ys) h = elim (Bool-cases (text_lt y x)) [
  | inl e ↦
      rw e (
        All-place (λ z. text_lt z y ≡ false) x ys (text_lt_asym y x e) h.0,
        place-AreSorted x ys h.1,
      )
  | inr n ↦ rw n ((n, All-imp (λ z g. text_lt_trans x y z n g) ys h.0), h)
]

sort-AreSorted : (xs : List Text) → AreSorted (sort xs)
unfolding sort
sort-AreSorted [] = tt
sort-AreSorted (x ∷ xs) = place-AreSorted x (sort xs) (sort-AreSorted xs)

not_before :
    (x y : Text) (xs : List Text)
    → All (λ z. text_lt z x ≡ false) xs
    → 0 < count y xs
    → text_lt y x ≡ false
unfolding count
not_before x y [] h there = absurd (omega (arith, there))
not_before x y (z ∷ xs) h there = elim (Bool-cases (text_eq z y)) [
  | inl same ↦ ap (λ u. text_lt u x) (sym ((text_eq_iff z y).0 same)) ∙ h.0
  | inr other ↦ not_before x y xs h.1 (ground (arith, there, other))
]

-- The first text of a sorted list is before no other.
head_least :
    (x y : Text) (xs : List Text) → AreSorted (x ∷ xs) → 0 < count y (x ∷ xs) → text_lt y x ≡ false
head_least x y xs h there = not_before x y (x ∷ xs) (text_lt_refl x, h.0) there

tail_count :
    (k x : Text) (xs ys : List Text) → count k (x ∷ xs) ≡ count k (x ∷ ys) → count k xs ≡ count k ys
unfolding count
tail_count k x xs ys e = ground (arith, e)

count_head : (x : Text) (xs : List Text) → 0 < count x (x ∷ xs)
unfolding count
count_head x xs = ground (arith, text_eq_refl x)

sorted_unique :
    (xs ys : List Text)
    → AreSorted xs
    → AreSorted ys
    → ((k : Text) → count k xs ≡ count k ys)
    → xs ≡ ys
unfolding count
sorted_unique [] [] h g same = refl
sorted_unique [] (y ∷ ys) h g same = absurd (ground (arith, same y, text_eq_refl y))
sorted_unique (x ∷ xs) [] h g same = absurd (ground (arith, same x, text_eq_refl x))
sorted_unique (x ∷ xs) (y ∷ ys) h g same =
    let first = head_least x y xs h (subst (λ n. 0 < n) (sym (same y)) (count_head y ys)) in
    let second = head_least y x ys g (subst (λ n. 0 < n) (same x) (count_head x xs)) in
    let heads : x ≡ y = (text_eq_iff x y).0 (text_lt_antisym x y second first) in
    let tails =
      sorted_unique xs ys h.1 g.1
        (λ k. tail_count k y xs ys (sym (ap (λ z. count k (z ∷ xs)) heads) ∙ same k)) in
    ap (λ t. t ∷ xs) heads ∙ ap (λ ts. y ∷ ts) tails

pub sort_unique : (xs ys : List Text) → ((k : Text) → count k xs ≡ count k ys) → sort xs ≡ sort ys
sort_unique xs ys same =
    sorted_unique (sort xs) (sort ys) (sort-AreSorted xs) (sort-AreSorted ys)
      (λ k. count-sort k xs ∙ same k ∙ sym (count-sort k ys))
