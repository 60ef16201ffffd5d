-- ===== src/Ledger/Ascending.antt =====
-- What `List` returns.
use chartly.Prelude.{
  ℕ, ◌*◌, ◌^◌, ◌<◌, ◌≡◌, refl, Bool, true, false, ◌&&◌, Option, none, some, List, [], ◌∷◌, map, ◌⊎◌,
  inl, inr, arith, if◌then◌else◌, ltb, take, Bool-cases, Sum-cases, Option-cases,
}
use Prim.Native.Nat.{min}
use mathlib.Core.List.{Perm}
use mathlib.Core.List.Perm
use mathlib.Core.Path.{subst}
use chartly.Prelude.Int.{ℤ, or_default}
use chartly.Text.{Text, text_eq, text_lt, is_empty}
use chartly.Text.Order.{text_lt_asym}
use chartly.Ledger.{Event, norm, deep_copy_event, parse_rfc3339}
use chartly.Ledger.AppendOnly.{AppendOnly}
use chartly.Ledger.Listing.{
  parse_since, after_since, select_events, earlier, place_event, sort_events, list,
}

-- Whether a time, of an event, is after that of `since`, if there is one.
abbrev pub later_than : Option ℕ → Option ℕ → Bool
later_than none t = true
later_than (some since) none = false
later_than (some since) (some t) = ltb since t

-- The start of the year 1 where the time does not parse.
abbrev pub instant : Option ℕ → ℕ
instant none = 367 * 86400 * 10 ^ 9
instant (some t) = t

module _ (parse_time : Text → Option ℕ) where
  -- The events of the tenant after `since`, in the order of the ledger.
  unfoldable pub wanted : Text → Option ℕ → List Event → List Event
  wanted tenant since [] = []
  wanted tenant since (e ∷ es) =
      let rest = wanted tenant since es in
      if text_eq e.tenant_id tenant && later_than since (parse_rfc3339 parse_time e.ts)
      then e ∷ rest
      else rest

  -- By time, then by identifier.
  abbrev pub NotAfter : Event → Event → Type 0
  NotAfter a b =
      let t = instant (parse_rfc3339 parse_time a.ts) in
      let u = instant (parse_rfc3339 parse_time b.ts) in
      (t < u) ⊎ ((t ≡ u) × (text_lt b.event_id a.event_id ≡ false))

  abbrev pub AscendingFrom : Event → List Event → Type 0
  AscendingFrom low [] = Unit
  AscendingFrom low (e ∷ es) = NotAfter low e × AscendingFrom e es

  abbrev pub Ascending : List Event → Type 0
  Ascending [] = Unit
  Ascending (e ∷ es) = AscendingFrom e es

  earlier-NotAfter : (a b : Event) → earlier parse_time a b ≡ true → NotAfter a b
  unfolding earlier
  earlier-NotAfter a b h = ground (arith, text_lt_asym a.event_id b.event_id)

  later-NotAfter : (a b : Event) → earlier parse_time a b ≡ false → NotAfter b a
  unfolding earlier
  later-NotAfter a b h = ground arith

  place_event-AscendingFrom :
      (x : Event) (es : List Event) (low : Event)
      → NotAfter low x
      → AscendingFrom low es
      → AscendingFrom low (place_event parse_time x es)
  unfolding place_event
  place_event-AscendingFrom x [] low h hs = (h, tt)
  place_event-AscendingFrom x (y ∷ ys) low h hs = elim (Bool-cases (earlier parse_time y x)) [
    | inl e ↦ rw e (hs.0, place_event-AscendingFrom x ys y (earlier-NotAfter y x e) hs.1)
    | inr n ↦ rw n (h, (later-NotAfter y x n, hs.1))
  ]

  place_event-Ascending :
      (x : Event) (es : List Event) → Ascending es → Ascending (place_event parse_time x es)
  unfolding place_event
  place_event-Ascending x [] hs = tt
  place_event-Ascending x (y ∷ ys) hs = elim (Bool-cases (earlier parse_time y x)) [
    | inl e ↦ rw e (place_event-AscendingFrom x ys y (earlier-NotAfter y x e) hs)
    | inr n ↦ rw n (later-NotAfter y x n, hs)
  ]

  sort_events-Ascending : (es : List Event) → Ascending (sort_events parse_time es)
  unfolding sort_events
  sort_events-Ascending [] = tt
  sort_events-Ascending (x ∷ es) =
      place_event-Ascending x (sort_events parse_time es) (sort_events-Ascending es)

  place_event-Perm : (x : Event) (es : List Event) → Perm (place_event parse_time x es) (x ∷ es)
  unfolding place_event
  place_event-Perm x [] = Perm.rfl
  place_event-Perm x (y ∷ ys) = elim (Bool-cases (earlier parse_time y x)) [
    | inl e ↦ rw e (Perm.trans (Perm.cons y (place_event-Perm x ys)) (Perm.swap x y ys))
    | inr n ↦ rw n Perm.rfl
  ]

  sort_events-Perm : (es : List Event) → Perm (sort_events parse_time es) es
  unfolding sort_events
  sort_events-Perm [] = Perm.rfl
  sort_events-Perm (x ∷ es) =
      Perm.trans (place_event-Perm x (sort_events parse_time es))
        (Perm.cons x (sort_events-Perm es))

  after_since-later_than :
      (since : Option ℕ) (e : Event)
      → after_since parse_time since e ≡ later_than since (parse_rfc3339 parse_time e.ts)
  unfolding after_since
  after_since-later_than none e = refl
  after_since-later_than (some since) e = elim (Option-cases (parse_rfc3339 parse_time e.ts)) [
    | inl never ↦ ground (arith, never)
    | inr (t, at) ↦ ground (arith, at)
  ]

  select_events-wanted :
      (tenant : Text) (since : Option ℕ) (es : List Event)
      → select_events parse_time tenant since es ≡ map deep_copy_event (wanted tenant since es)
  unfolding select_events wanted
  select_events-wanted tenant since [] = refl
  select_events-wanted tenant since (e ∷ es) =
      ground (arith, select_events-wanted tenant since es, after_since-later_than since e)

  -- What `since` stands for.
  abbrev pub StandsFor : Text → Option ℕ → Type 0
  StandsFor since after =
      ((is_empty (norm since) ≡ true) × (after ≡ none))
      ⊎ ((t : ℕ) × (parse_rfc3339 parse_time (norm since) ≡ some t) × (after ≡ some t))

  parse_since-StandsFor :
      (since : Text) (after : Option ℕ)
      → parse_since parse_time since ≡ inr after
      → StandsFor since after
  unfolding parse_since
  parse_since-StandsFor since after h = elim (Bool-cases (is_empty (norm since))) [
    | inl blank ↦ inl (blank, ground (arith, h, blank))
    | inr some_text ↦ elim (Option-cases (parse_rfc3339 parse_time (norm since))) [
      | inl never ↦ absurd (ground (arith, h, some_text, never))
      | inr (t, at) ↦ inr (t, at, ground (arith, h, some_text, at))
    ]
  ]

  -- What a successful call returns.
  pub record IsListing (l : AppendOnly) (tenant_id since : Text) (limit : ℤ) (es : List Event)
      : Type 0 where
    pub after : Option ℕ
    pub since_time : StandsFor since after
    pub whole : List Event
    pub complete : Perm whole (map deep_copy_event (wanted (norm tenant_id) after l.events))
    pub ascending : Ascending whole
    pub cut : es ≡ take (min (or_default limit 200) 5000) whole

  -- A list that `List` returns is the start of the whole list, as long as the limit allows, which is 200
  -- by default and 5000 at most. The whole list has a copy of each event of the tenant in the ledger,
  -- and where `since` is given of those only that have a time after it, each as often as the ledger has
  -- it, in the order of their times (the year 1 where one does not parse) and then their identifiers.
  pub list-IsListing :
      (l : AppendOnly) (tenant_id since : Text) (limit : ℤ) (es : List Event)
      → list parse_time l tenant_id since limit ≡ inr es
      → IsListing l tenant_id since limit es
  unfolding list
  list-IsListing l tenant_id since limit es h = elim (Sum-cases (parse_since parse_time since)) [
    | inl (error, bad) ↦ absurd (ground (arith, h, bad))
    | inr (after, good) ↦
        let some_tenant : is_empty (norm tenant_id) ≡ false = ground (arith, h) in
        let found = select_events parse_time (norm tenant_id) after l.events in
        record {
          after = after;
          since_time = parse_since-StandsFor since after good;
          whole = sort_events parse_time found;
          complete =
              subst (λ x. Perm (sort_events parse_time found) x)
                (select_events-wanted (norm tenant_id) after l.events) (sort_events-Perm found);
          ascending = sort_events-Ascending found;
          cut = ground (arith, h, good, some_tenant);
        }
  ]
