-- ===== src/Prelude/Lists.antt =====
-- Lists measured and indexed by native numbers, under the library's names.
use Prim.Native.Nat.{ℕ, zero, suc, ◌+◌, ◌<◌, ◌≤◌, min}
use mathlib.Core.Path.{◌≡◌, refl, ap}
use mathlib.Core.Logic.{◌≢◌}
use mathlib.Core.Bool.{Bool, true, ◌&&◌}
use mathlib.Core.Option.{Option, none, some}
use mathlib.Core.List.{List, [], ◌∷◌, ◌++◌}
use native.Mathlib.Omega.{arith}

module _ {ℓ} {A : Type ℓ} where
  abbrev pub length : List A → ℕ
  length [] = 0
  length (x ∷ xs) = suc (length xs)

  abbrev pub get_or : List A → ℕ → A → A
  get_or [] i d = d
  get_or (x ∷ xs) zero d = x
  get_or (x ∷ xs) (suc i) d = get_or xs i d

  -- A write out of bounds changes nothing.
  abbrev pub get_elem? : List A → ℕ → Option A
  get_elem? [] i = none
  get_elem? (x ∷ xs) zero = some x
  get_elem? (x ∷ xs) (suc i) = get_elem? xs i

  abbrev pub set : List A → ℕ → A → List A
  set [] i v = []
  set (x ∷ xs) zero v = v ∷ xs
  set (x ∷ xs) (suc i) v = x ∷ set xs i v

  abbrev pub replicate : ℕ → A → List A
  replicate zero a = []
  replicate (suc n) a = a ∷ replicate n a

  abbrev pub take : ℕ → List A → List A
  take zero xs = []
  take (suc n) [] = []
  take (suc n) (x ∷ xs) = x ∷ take n xs

  abbrev pub all : (A → Bool) → List A → Bool
  all p [] = true
  all p (x ∷ xs) = p x && all p xs

  abbrev pub All {κ} : (A → Type κ) → List A → Type κ
  All P [] = Unit
  All P (x ∷ xs) = P x × All P xs

  pub length-append : (xs ys : List A) → length (xs ++ ys) ≡ length xs + length ys
  length-append [] ys = omega arith
  length-append (x ∷ xs) ys = omega (arith, length-append xs ys)

  pub length-replicate : (n : ℕ) (a : A) → length (replicate n a) ≡ n
  length-replicate zero a = refl
  length-replicate (suc n) a = ap suc (length-replicate n a)

  pub length-take : (n : ℕ) (xs : List A) → length (take n xs) ≡ min n (length xs)
  length-take zero xs = omega arith
  length-take (suc n) [] = omega arith
  length-take (suc n) (x ∷ xs) = omega (arith, length-take n xs)

  pub length-set : (xs : List A) (i : ℕ) (v : A) → length (set xs i v) ≡ length xs
  length-set [] i v = refl
  length-set (x ∷ xs) zero v = refl
  length-set (x ∷ xs) (suc i) v = ap suc (length-set xs i v)

  pub get_or-set_self :
      (xs : List A) (i : ℕ) (v d : A) → i < length xs → get_or (set xs i v) i d ≡ v
  get_or-set_self [] i v d h = absurd (omega arith)
  get_or-set_self (x ∷ xs) zero v d h = refl
  get_or-set_self (x ∷ xs) (suc i) v d h = get_or-set_self xs i v d (omega arith)

  pub get_or-set_ne :
      (xs : List A) {i j : ℕ} (v d : A) → i ≢ j → get_or (set xs i v) j d ≡ get_or xs j d
  get_or-set_ne [] v d h = refl
  get_or-set_ne (x ∷ xs) {i = zero} {j = zero} v d h = absurd (h refl)
  get_or-set_ne (x ∷ xs) {i = zero} {j = suc j} v d h = refl
  get_or-set_ne (x ∷ xs) {i = suc i} {j = zero} v d h = refl
  get_or-set_ne (x ∷ xs) {i = suc i} {j = suc j} v d h = get_or-set_ne xs v d (λ e. h (ap suc e))

  pub all-imp :
      (p q : A → Bool)
      → ((a : A) → p a ≡ true → q a ≡ true)
      → (xs : List A) → all p xs ≡ true
      → all q xs ≡ true
  all-imp p q h [] e = refl
  all-imp p q h (x ∷ xs) e = ground (arith, h x, all-imp p q h xs)

  pub all-append :
      (p : A → Bool) (xs ys : List A) → all p xs ≡ true → all p ys ≡ true → all p (xs ++ ys) ≡ true
  all-append p [] ys e f = f
  all-append p (x ∷ xs) ys e f = ground (arith, all-append p xs ys)

  pub All-imp {κ κ'} :
      {P : A → Type κ} {Q : A → Type κ'}
      → ((a : A) → P a → Q a)
      → (xs : List A) → All P xs
      → All Q xs
  All-imp h [] ps = tt
  All-imp h (x ∷ xs) ps = (h x ps.0, All-imp h xs ps.1)

  -- What a measure adds up to, along the list.
  abbrev pub sum_by : (A → ℕ) → List A → ℕ
  sum_by w [] = 0
  sum_by w (x ∷ xs) = w x + sum_by w xs

  -- The same without the element at an index.
  abbrev pub rest_by : (A → ℕ) → List A → ℕ → ℕ
  rest_by w [] i = 0
  rest_by w (x ∷ xs) zero = sum_by w xs
  rest_by w (x ∷ xs) (suc i) = w x + rest_by w xs i

  pub sum_by-rest_by :
      (w : A → ℕ) (xs : List A) (i : ℕ) (x : A)
      → get_elem? xs i ≡ some x
      → sum_by w xs ≡ rest_by w xs i + w x
  sum_by-rest_by w [] i x h = cc
  sum_by-rest_by w (y ∷ ys) zero x h = let same : w y ≡ w x = ap w cc in omega (arith, same)
  sum_by-rest_by w (y ∷ ys) (suc i) x h = omega (arith, sum_by-rest_by w ys i x h)

  pub sum_by-set :
      (w : A → ℕ) (xs : List A) (i : ℕ) (x y : A)
      → get_elem? xs i ≡ some x
      → sum_by w (set xs i y) ≡ rest_by w xs i + w y
  sum_by-set w [] i x y h = cc
  sum_by-set w (z ∷ zs) zero x y h = omega arith
  sum_by-set w (z ∷ zs) (suc i) x y h = omega (arith, sum_by-set w zs i x y h)

  pub sum_by-append_one :
      (w : A → ℕ) (xs : List A) (y : A) → sum_by w (xs ++ y ∷ []) ≡ sum_by w xs + w y
  sum_by-append_one w [] y = omega arith
  sum_by-append_one w (x ∷ xs) y = omega (arith, sum_by-append_one w xs y)

  pub sum_by_two :
      (w : A → ℕ) (xs : List A) (i j : ℕ) (x y : A)
      → i ≢ j
      → get_elem? xs i ≡ some x
      → get_elem? xs j ≡ some y
      → w x + w y ≤ sum_by w xs
  sum_by_two w [] i j x y ne h h' = cc
  sum_by_two w (z ∷ zs) zero zero x y ne h h' = absurd (ne refl)
  sum_by_two w (z ∷ zs) zero (suc j) x y ne h h' =
      let same : w z ≡ w x = ap w cc in omega (arith, same, sum_by-rest_by w zs j y h')
  sum_by_two w (z ∷ zs) (suc i) zero x y ne h h' =
      let same : w z ≡ w y = ap w cc in omega (arith, same, sum_by-rest_by w zs i x h)
  sum_by_two w (z ∷ zs) (suc i) (suc j) x y ne h h' =
      omega (arith, sum_by_two w zs i j x y (λ e. ne (ap suc e)) h h')
