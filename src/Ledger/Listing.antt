-- ===== src/Ledger/Listing.antt =====
-- `List` of the ledger.
use chartly.Prelude.{
  ℕ, ◌*◌, ◌^◌, Bool, true, false, ◌&&◌, Option, none, some, List, [], ◌∷◌, ◌⊎◌, inl, inr,
  if◌then◌else◌, ltb, take,
}
use Prim.Native.Nat.{min}
use chartly.Prelude.Int.{ℤ, or_default}
use chartly.Text.{Text, text_eq, text_lt, is_empty}
use chartly.Ledger.{
  Event, Error, tenant_missing, since_invalid, norm, deep_copy_event, parse_rfc3339,
}
use chartly.Ledger.AppendOnly.{AppendOnly}

-- time.Time{}, the start of the year 1, from the day before the year 0.
abbrev pub zero_time : ℕ
zero_time = 367 * 86400 * 10 ^ 9

abbrev pub or_zero_time : Option ℕ → ℕ
or_zero_time none = zero_time
or_zero_time (some t) = t

module _ (parse_time : Text → Option ℕ) where
  -- `none` where `since` is empty.
  unfoldable pub parse_since : Text → Error ⊎ Option ℕ
  unfolding parse_rfc3339
  parse_since since =
      if is_empty (norm since) then inr none else elim (parse_rfc3339 parse_time (norm since)) [
        | none ↦ inl since_invalid
        | some t ↦ inr (some t)
      ]

  -- Whether the first loop keeps an event.
  unfoldable pub after_since : Option ℕ → Event → Bool
  unfolding parse_rfc3339
  after_since none e = true
  after_since (some since) e = elim (parse_rfc3339 parse_time e.ts) [
    | none ↦ false
    | some t ↦ ltb since t
  ]

  unfoldable pub select_events : Text → Option ℕ → List Event → List Event
  unfolding after_since deep_copy_event
  select_events tenant since [] = []
  select_events tenant since (e ∷ es) =
      let rest = select_events tenant since es in
      if text_eq e.tenant_id tenant && after_since since e then deep_copy_event e ∷ rest else rest

  abbrev pub time_of : Event → ℕ
  time_of e = or_zero_time (parse_rfc3339 parse_time e.ts)

  -- The order of the list: by time, then by event.
  unfoldable pub earlier : Event → Event → Bool
  unfolding parse_rfc3339
  earlier a b =
      if ltb (time_of a) (time_of b)
      then true
      else if ltb (time_of b) (time_of a)
      then false
      else text_lt a.event_id b.event_id

  unfoldable pub place_event : Event → List Event → List Event
  unfolding earlier
  place_event x [] = x ∷ []
  place_event x (y ∷ ys) =
      let rest = place_event x ys in if earlier y x then y ∷ rest else x ∷ y ∷ ys

  -- sort.Slice; the events are of one tenant and differ in their identifier, so there are no ties.
  unfoldable pub sort_events : List Event → List Event
  unfolding place_event
  sort_events [] = []
  sort_events (x ∷ xs) = place_event x (sort_events xs)

  unfoldable pub list : AppendOnly → Text → Text → ℤ → Error ⊎ List Event
  unfolding parse_since select_events sort_events
  list l tenant_id since limit =
      let t = norm tenant_id in
      if is_empty t then inl tenant_missing else elim (parse_since since) [
        | inl error ↦ inl error
        | inr after ↦
            inr (
              take (min (or_default limit 200) 5000) (sort_events (select_events t after l.events)))
      ]
