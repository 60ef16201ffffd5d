-- ===== src/Ledger/Evict.antt =====
-- How many events `evictDeterministic` leaves.
use chartly.Prelude.{
  ℕ, zero, suc, ◌+◌, ◌-◌, ◌≤◌, ◌<◌, ◌≡◌, refl, ap, ◌∙◌, ◌&&◌, ◌||◌, Option, List, [], ◌∷◌, arith,
  if◌then◌else◌, ltb, leb, ◌==◌, length, take, length-take, length-append, All, Bool-cases, inl,
  inr,
}
use chartly.Dict.{Dict}
use chartly.Ledger.{Event}
use chartly.Ledger.AppendOnly.{
  AppendOnly, Item, older, place_item, sort_items, push_event, is_dropped, rebuild, items_of,
  evict_deterministic,
}
use chartly.Text.{Text}

-- How often a position is dropped.
count_position : ℕ → List Item → ℕ
count_position p [] = 0
count_position p (x ∷ xs) =
    let rest = count_position p xs in if x.position == p then suc rest else rest

-- The same over `n` positions from `i` on, and how many of them are dropped.
total : ℕ → ℕ → List Item → ℕ
unfolding count_position
total i zero drop = 0
total i (suc n) drop = count_position i drop + total (suc i) n drop

hits : ℕ → ℕ → List Item → ℕ
hits i zero drop = 0
hits i (suc n) drop = let rest = hits (suc i) n drop in if is_dropped i drop then suc rest else rest

is_dropped-count : (i : ℕ) (drop : List Item) → is_dropped i drop ≡ ltb 0 (count_position i drop)
unfolding is_dropped count_position
is_dropped-count i [] = ground arith
is_dropped-count i (x ∷ xs) = ground (arith, is_dropped-count i xs)

-- Positions that differ are dropped once each.
hits-eq-total :
    (i n : ℕ) (drop : List Item)
    → ((p : ℕ) → count_position p drop ≤ 1)
    → hits i n drop ≡ total i n drop
unfolding hits total
hits-eq-total i zero drop h = refl
hits-eq-total i (suc n) drop h =
    ground (arith, hits-eq-total (suc i) n drop h, is_dropped-count i drop, h i)

total_nil : (i n : ℕ) → total i n [] ≡ 0
unfolding total count_position
total_nil i zero = refl
total_nil i (suc n) = omega (arith, total_nil (suc i) n)

total_cons :
    (i n : ℕ) (x : Item) (xs : List Item)
    → total i n (x ∷ xs)
      ≡ (if leb i x.position && ltb x.position (i + n) then suc (total i n xs) else total i n xs)
unfolding total count_position
total_cons i zero x xs = ground arith
total_cons i (suc n) x xs = ground (arith, total_cons (suc i) n x xs)

-- All the positions of the list are counted.
total-eq-length :
    (n : ℕ) (drop : List Item) → All (λ x. x.position < n) drop → total 0 n drop ≡ length drop
total-eq-length n [] h = total_nil 0 n
total-eq-length n (x ∷ xs) h = ground (arith, total_cons 0 n x xs, h.0, total-eq-length n xs h.1)

length-rebuild :
    (drop : List Item) (i : ℕ) (evs : List Event) (kept : List Event × Dict (Dict ℕ))
    → length (rebuild drop i evs kept).0 + hits i (length evs) drop ≡ length kept.0 + length evs
unfolding rebuild push_event hits
length-rebuild drop i [] kept = omega arith
length-rebuild drop i (ev ∷ evs) kept = ground (
  arith,
  length-rebuild drop (suc i) evs (if is_dropped i drop then kept else push_event ev kept),
  length-append kept.0 (ev ∷ []),
)

module _ (p : ℕ) where
  count-place_item :
      (x : Item) (xs : List Item) → count_position p (place_item x xs) ≡ count_position p (x ∷ xs)
  unfolding count_position place_item
  count-place_item x [] = refl
  count-place_item x (y ∷ ys) = ground (arith, count-place_item x ys)

  count-sort_items : (xs : List Item) → count_position p (sort_items xs) ≡ count_position p xs
  unfolding count_position sort_items
  count-sort_items [] = refl
  count-sort_items (x ∷ xs) =
      ground (arith, count-sort_items xs, count-place_item x (sort_items xs))

  count-take : (n : ℕ) (xs : List Item) → count_position p (take n xs) ≤ count_position p xs
  unfolding count_position
  count-take zero xs = omega arith
  count-take (suc n) [] = omega arith
  count-take (suc n) (x ∷ xs) = ground (arith, count-take n xs)

module _ (P : Item → Type 0) where
  pub All-place_item : (x : Item) (xs : List Item) → P x → All P xs → All P (place_item x xs)
  unfolding place_item
  All-place_item x [] h hs = (h, tt)
  All-place_item x (y ∷ ys) h hs = elim (Bool-cases (older y x)) [
    | inl e ↦ rw e (hs.0, All-place_item x ys h hs.1)
    | inr e ↦ rw e (h, hs)
  ]

  pub All-sort_items : (xs : List Item) → All P xs → All P (sort_items xs)
  unfolding sort_items
  All-sort_items [] h = tt
  All-sort_items (x ∷ xs) h = All-place_item x (sort_items xs) h.0 (All-sort_items xs h.1)

  pub All-take : (k : ℕ) (xs : List Item) → All P xs → All P (take k xs)
  All-take zero xs h = tt
  All-take (suc k) [] h = tt
  All-take (suc k) (x ∷ xs) h = (h.0, All-take k xs h.1)

length-place_item : (x : Item) (xs : List Item) → length (place_item x xs) ≡ suc (length xs)
unfolding place_item
length-place_item x [] = refl
length-place_item x (y ∷ ys) = ground (arith, length-place_item x ys)

pub length-sort_items : (xs : List Item) → length (sort_items xs) ≡ length xs
unfolding sort_items
length-sort_items [] = refl
length-sort_items (x ∷ xs) =
    omega (arith, length-sort_items xs, length-place_item x (sort_items xs))

module _ (parse_time : Text → Option ℕ) where
  pub length-items_of : (i : ℕ) (evs : List Event) → length (items_of parse_time i evs) ≡ length evs
  unfolding items_of
  length-items_of i [] = refl
  length-items_of i (ev ∷ evs) = ap suc (length-items_of (suc i) evs)

  items_of-All :
      (i n : ℕ) (evs : List Event)
      → i + length evs ≤ n
      → All (λ x. x.position < n) (items_of parse_time i evs)
  unfolding items_of
  items_of-All i n [] h = tt
  items_of-All i n (ev ∷ evs) h = (omega (arith, h), items_of-All (suc i) n evs (omega (arith, h)))

  -- The positions start at `i` and differ.
  count-items_of :
      (p i : ℕ) (evs : List Event)
      → count_position p (items_of parse_time i evs) ≤ (if ltb p i then 0 else 1)
  unfolding items_of count_position
  count-items_of p i [] = ground arith
  count-items_of p i (ev ∷ evs) = ground (arith, count-items_of p (suc i) evs)

  -- The events that `evictDeterministic` drops.
  abbrev dropped : AppendOnly → List Item
  dropped l = take (length l.events - l.max) (sort_items (items_of parse_time 0 l.events))

  hits-dropped : (l : AppendOnly) → hits 0 (length l.events) (dropped l) ≡ length l.events - l.max
  hits-dropped l =
      let n = length l.events in
      let items = items_of parse_time 0 l.events in
      let drop = take (n - l.max) (sort_items items) in
      let once : (p : ℕ) → count_position p drop ≤ 1 = λ p. ground (
        arith,
        count-take p (n - l.max) (sort_items items),
        count-sort_items p items,
        count-items_of p 0 l.events,
      ) in
      let inside =
        All-take (λ x. x.position < n) (n - l.max) (sort_items items)
          (All-sort_items (λ x. x.position < n) items (items_of-All 0 n l.events (omega arith))) in
      hits-eq-total 0 n drop once
      ∙ total-eq-length n drop inside
      ∙ omega (
        arith,
        length-take (n - l.max) (sort_items items),
        length-sort_items items,
        length-items_of 0 l.events,
      )

  pub length-evict :
      (l : AppendOnly)
      → 0 < l.max
      → l.max ≤ length l.events
      → length (evict_deterministic parse_time l).events ≡ l.max
  unfolding evict_deterministic
  length-evict l p h = elim (Bool-cases (leb (length l.events) l.max || (l.max == 0))) [
    | inl y ↦ rw y (ground (arith, y, h, p))
    | inr n ↦
        rw n (omega (arith, length-rebuild (dropped l) 0 l.events ([], []), hits-dropped l, h))
  ]
