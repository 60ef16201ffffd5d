-- ===== src/Text/Sort.antt =====
-- Sorted lists of strings: sort.Strings, and sort.Slice by `<` on strings. Equal strings cannot be
-- told apart, so the result is the same for every sorting algorithm.
use chartly.Prelude.{ℕ, suc, ◌+◌, ◌≡◌, refl, List, [], ◌∷◌, ◌++◌, arith, if◌then◌else◌, length}
use chartly.Text.{Text, text_eq, text_lt}

-- How often a text stands in a list.
unfoldable pub count : Text → List Text → ℕ
count k [] = 0
count k (x ∷ xs) = let rest = count k xs in if text_eq x k then suc rest else rest

unfoldable pub place : Text → List Text → List Text
place x [] = x ∷ []
place x (y ∷ ys) = let rest = place x ys in if text_lt y x then y ∷ rest else x ∷ y ∷ ys

unfoldable pub sort : List Text → List Text
sort [] = []
sort (x ∷ xs) = place x (sort xs)

pub count-append : (k : Text) (xs ys : List Text) → count k (xs ++ ys) ≡ count k xs + count k ys
unfolding count
count-append k [] ys = omega arith
count-append k (x ∷ xs) ys = ground (arith, count-append k xs ys)

count-place : (k x : Text) (xs : List Text) → count k (place x xs) ≡ count k (x ∷ xs)
unfolding count place
count-place k x [] = refl
count-place k x (y ∷ ys) = ground (arith, count-place k x ys)

pub count-sort : (k : Text) (xs : List Text) → count k (sort xs) ≡ count k xs
unfolding count sort
count-sort k [] = refl
count-sort k (x ∷ xs) = ground (arith, count-sort k xs, count-place k x (sort xs))

length-place : (x : Text) (xs : List Text) → length (place x xs) ≡ suc (length xs)
unfolding place
length-place x [] = refl
length-place x (y ∷ ys) = ground (arith, length-place x ys)

pub length-sort : (xs : List Text) → length (sort xs) ≡ length xs
unfolding sort
length-sort [] = refl
length-sort (x ∷ xs) = ground (arith, length-sort xs, length-place x (sort xs))
