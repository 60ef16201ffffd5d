-- ===== src/Ledger/Older.antt =====
-- The order of the items of `evictDeterministic`,
-- services/audit/internal/ledger/append_only.go, and what its sort puts first.
use chartly.Prelude.{
  ℕ, zero, suc, ◌≡◌, ◌≢◌, true, false, List, [], ◌∷◌, arith, if◌then◌else◌, take, All, All-imp,
  Bool-cases, inl, inr,
}
use chartly.Text.Laws.{text_eq_iff}
use chartly.Text.Order.{text_lt_asym, text_lt_antisym, text_lt_trans}
use chartly.Ledger.Evict.{All-place_item}
use chartly.Ledger.AppendOnly.{Item, older, place_item, sort_items, is_dropped}

pub older_asym : (a b : Item) → older a b ≡ true → older b a ≡ false
unfolding older
older_asym a b h = ground (
  arith,
  h,
  text_eq_iff a.tid b.tid,
  text_eq_iff b.tid a.tid,
  text_lt_asym a.tid b.tid,
  text_lt_asym a.eid b.eid,
)

-- If `b` is not older than `a`, and `c` not older than `b`, then `c` is not older than `a`.
older_trans : (a b c : Item) → older b a ≡ false → older c b ≡ false → older c a ≡ false
unfolding older
older_trans a b c h g = ground (
  arith,
  h,
  g,
  text_eq_iff a.tid b.tid,
  text_eq_iff b.tid a.tid,
  text_eq_iff b.tid c.tid,
  text_eq_iff c.tid b.tid,
  text_eq_iff c.tid a.tid,
  text_lt_trans a.tid b.tid c.tid,
  text_lt_trans a.eid b.eid c.eid,
  text_lt_antisym c.tid b.tid,
  text_lt_antisym b.tid a.tid,
  text_lt_asym b.tid c.tid,
  text_lt_asym a.tid b.tid,
)

-- No item is older than one before it.
abbrev pub Sorted : List Item → Type 0
Sorted [] = Unit
Sorted (x ∷ xs) = All (λ y. older y x ≡ false) xs × Sorted xs

place_item-Sorted : (x : Item) (xs : List Item) → Sorted xs → Sorted (place_item x xs)
unfolding place_item
place_item-Sorted x [] h = (tt, tt)
place_item-Sorted x (y ∷ ys) h = elim (Bool-cases (older y x)) [
  | inl e ↦ rw e (
    All-place_item (λ z. older z y ≡ false) x ys (older_asym y x e) h.0,
    place_item-Sorted x ys h.1,
  )
  | inr n ↦ rw n ((n, All-imp (λ z g. older_trans x y z n g) ys h.0), h)
]

pub sort_items-Sorted : (xs : List Item) → Sorted (sort_items xs)
unfolding sort_items
sort_items-Sorted [] = tt
sort_items-Sorted (x ∷ xs) = place_item-Sorted x (sort_items xs) (sort_items-Sorted xs)

-- An item that is not dropped is not older than any that is.
abbrev pub Younger : List Item → Item → Type 0
Younger drop y = is_dropped y.position drop ≡ false → All (λ x. older y x ≡ false) drop

more_Younger :
    (x : Item) (drop : List Item) (y : Item)
    → older y x ≡ false
    → Younger drop y
    → Younger (x ∷ drop) y
unfolding is_dropped
more_Younger x drop y h g d = (h, g (ground (arith, d)))

more_Younger-All :
    (x : Item) (drop ys : List Item)
    → All (λ y. older y x ≡ false) ys
    → All (Younger drop) ys
    → All (Younger (x ∷ drop)) ys
more_Younger-All x drop [] g k = tt
more_Younger-All x drop (y ∷ ys) g k =
    (more_Younger x drop y g.0 k.0, more_Younger-All x drop ys g.1 k.1)

Younger-nil : (xs : List Item) → All (Younger []) xs
Younger-nil [] = tt
Younger-nil (x ∷ xs) = (λ d. tt, Younger-nil xs)

first_dropped : (x : Item) (drop : List Item) → is_dropped x.position (x ∷ drop) ≢ false
unfolding is_dropped
first_dropped x drop e = ground (arith, e)

pub take-Younger : (n : ℕ) (xs : List Item) → Sorted xs → All (Younger (take n xs)) xs
take-Younger zero xs h = Younger-nil xs
take-Younger (suc n) [] h = tt
take-Younger (suc n) (x ∷ xs) h = (
  λ d. absurd (first_dropped x (take n xs) d),
  more_Younger-All x (take n xs) xs h.0 (take-Younger n xs h.1),
)

module _ (P : Item → Type 0) where
  All-unplace : (x : Item) (xs : List Item) → All P (place_item x xs) → P x × All P xs
  unfolding place_item
  All-unplace x [] h = (h.0, tt)
  All-unplace x (y ∷ ys) h =
      let split =
        elim (older y x)
          as (λ b. All P (if b then y ∷ place_item x ys else x ∷ y ∷ ys) → P x × All P (y ∷ ys)) [
            | true ↦ λ k. let (here, there) = All-unplace x ys k.1 in (here, (k.0, there))
            | false ↦ λ k. k
          ] in
      split h

  pub All-unsort : (xs : List Item) → All P (sort_items xs) → All P xs
  unfolding sort_items
  All-unsort [] h = tt
  All-unsort (x ∷ xs) h =
      let (here, there) = All-unplace x (sort_items xs) h in (here, All-unsort xs there)
