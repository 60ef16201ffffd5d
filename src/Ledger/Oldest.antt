-- ===== src/Ledger/Oldest.antt =====
-- Which events `evictDeterministic` drops.
use chartly.Ledger.Older.{sort_items-Sorted, Younger, take-Younger, All-unsort}
use chartly.Prelude.{
  ℕ, zero, suc, ◌-◌, ◌<◌, ◌≡◌, ◌+◌, ◌*◌, ◌^◌, refl, sym, ap, ◌∙◌, ◌⊎◌, some, none, Bool, true,
  false, ◌||◌, Option, List, [], ◌∷◌, ◌++◌, arith, if◌then◌else◌, ltb, leb, ◌==◌, length, take,
  append-nil, append_assoc, All, All-imp, Bool-cases, inl, inr,
}
use mathlib.Core.Path.{subst}
use chartly.Text.{Text, text_eq, text_lt}
use chartly.Text.Laws.{text_eq_iff}
use chartly.Text.Order.{text_lt_antisym}
use chartly.Ledger.{Event, parse_rfc3339}
use chartly.Ledger.Evict.{All-sort_items, All-take, length-evict}
use chartly.Dict.{Dict}
use chartly.Ledger.AppendOnly.{
  AppendOnly, Item, older, sort_items, items_of, is_dropped, push_event, rebuild,
  evict_deterministic, event_at,
}

-- The events at the positions that do not go.
unfoldable pub survivors : (ℕ → Bool) → ℕ → List Event → List Event
survivors goes i [] = []
survivors goes i (e ∷ es) =
    let rest = survivors goes (suc i) es in if goes i then rest else e ∷ rest

rebuild-survivors :
    (drop : List Item) (i : ℕ) (evs : List Event) (kept : List Event × Dict (Dict ℕ))
    → (rebuild drop i evs kept).0 ≡ kept.0 ++ survivors (λ j. is_dropped j drop) i evs
unfolding rebuild survivors push_event
rebuild-survivors drop i [] kept = sym (append-nil kept.0)
rebuild-survivors drop i (ev ∷ evs) kept =
    let rest = survivors (λ j. is_dropped j drop) (suc i) evs in
    rebuild-survivors drop (suc i) evs (if is_dropped i drop then kept else push_event ev kept)
    ∙ elim (is_dropped i drop)
        as (λ b.
          (if b then kept else push_event ev kept).0 ++ rest
          ≡ kept.0 ++ (if b then rest else ev ∷ rest)) [
            | true ↦ refl
            | false ↦ append_assoc kept.0 (ev ∷ []) rest
          ]

-- The time of an event, 1970 where it has none that parses.
abbrev pub stamp : Option ℕ → ℕ
stamp none = 719529 * 86400 * 10 ^ 9
stamp (some t) = t

-- An item with the first key is no later than one with the second: by time, then by tenant, then by
-- identifier.
abbrev pub NoLater : ℕ → Text → Text → ℕ → Text → Text → Type 0
NoLater t tenant id t' tenant' id' =
    (t < t')
    ⊎ ((t ≡ t')
        × ((text_lt tenant tenant' ≡ true)
            ⊎ ((text_eq tenant tenant' ≡ true) × (text_lt id' id ≡ false))))

older-NoLater : (x y : Item) → older y x ≡ false → NoLater x.ts x.tid x.eid y.ts y.tid y.eid
unfolding older
older-NoLater x y h = elim (Bool-cases (ltb x.ts y.ts)) [
  | inl early ↦ inl (ground (arith, early))
  | inr not_early ↦
      let same : x.ts ≡ y.ts = ground (arith, h, not_early) in
      elim (Bool-cases (text_eq x.tid y.tid)) [
        | inl one ↦ inr (
          same,
          inr (one, ground (arith, h, same, one, text_eq_iff x.tid y.tid, text_eq_iff y.tid x.tid)),
        )
        | inr two ↦ inr (
          same,
          inl (
              ground (
                arith,
                h,
                same,
                two,
                text_eq_iff x.tid y.tid,
                text_eq_iff y.tid x.tid,
                text_lt_antisym x.tid y.tid,
              )),
        )
      ]
]

All-both : (P Q : Item → Type 0) (xs : List Item) → All P xs → All Q xs → All (λ x. P x × Q x) xs
All-both P Q [] h g = tt
All-both P Q (x ∷ xs) h g = ((h.0, g.0), All-both P Q xs h.1 g.1)

module _ (P : Item → Type 0) where
  All-dropped :
      (i : ℕ) (drop : List Item)
      → All P drop
      → is_dropped i drop ≡ true
      → (x : Item) × (x.position ≡ i) × P x
  unfolding is_dropped
  All-dropped i [] h d = cc
  All-dropped i (x ∷ xs) h d = elim (Bool-cases (x.position == i)) [
    | inl here ↦ (x, ground arith, h.0)
    | inr away ↦ All-dropped i xs h.1 (ground (arith, d, away))
  ]

module _ (parse_time : Text → Option ℕ) where
  evict-survivors :
      (l : AppendOnly)
      → 0 < l.max
      → l.max < length l.events
      → (evict_deterministic parse_time l).events
        ≡ survivors
            (λ j.
              is_dropped j
                (take (length l.events - l.max) (sort_items (items_of parse_time 0 l.events))))
            0
            l.events
  unfolding evict_deterministic
  evict-survivors l p h =
      let over : (leb (length l.events) l.max || (l.max == 0)) ≡ false = ground (arith, p, h) in
      rw over (
        rebuild-survivors
          (take (length l.events - l.max) (sort_items (items_of parse_time 0 l.events))) 0 l.events
          ([], []))

  -- An item has the key of an event.
  HasKey : Event → Item → Type 0
  HasKey e x =
      (x.ts ≡ stamp (parse_rfc3339 parse_time e.ts)) × (x.tid ≡ e.tenant_id) × (x.eid ≡ e.event_id)

  IsItemOf : ℕ → List Event → Item → Type 0
  IsItemOf i es x =
      (j : ℕ) × (e : Event) × (x.position ≡ i + j) × (event_at es j ≡ some e) × HasKey e x

  -- What holds of all items holds of one with the key of the event at a position.
  All-items_of :
      (P : Item → Type 0) (i j : ℕ) (es : List Event) (e : Event)
      → All P (items_of parse_time i es)
      → event_at es j ≡ some e
      → (y : Item) × (y.position ≡ i + j) × HasKey e y × P y
  unfolding items_of event_at HasKey
  All-items_of P i j [] e h found = cc
  All-items_of P i zero (x ∷ es) e h found = (
    _,
    ground arith,
    (let same : x ≡ e = cc in
        (
          ap (λ (d : Event). stamp (parse_rfc3339 parse_time d.ts)) same,
          ap (λ (d : Event). d.tenant_id) same,
          ap (λ (d : Event). d.event_id) same,
        )),
    h.0,
  )
  All-items_of P i (suc j) (x ∷ es) e h found =
      let (y, at, key, p) = All-items_of P (suc i) j es e h.1 found in (y, omega arith, key, p)

  more_IsItemOf :
      (i : ℕ) (e : Event) (es : List Event) (x : Item)
      → IsItemOf (suc i) es x
      → IsItemOf i (e ∷ es) x
  unfolding IsItemOf event_at
  more_IsItemOf i e es x (j, d, at, found, key) = (suc j, d, omega arith, found, key)

  items_of-IsItemOf : (i : ℕ) (es : List Event) → All (IsItemOf i es) (items_of parse_time i es)
  unfolding items_of
  items_of-IsItemOf i [] = tt
  items_of-IsItemOf i (e ∷ es) = (
    unfold IsItemOf event_at HasKey in (0, e, omega arith, refl, (refl, refl, refl)),
    All-imp (λ x. more_IsItemOf i e es x) (items_of parse_time (suc i) es)
        (items_of-IsItemOf (suc i) es),
  )

  keys-NoLater :
      (e f : Event) (x y : Item)
      → HasKey e x
      → HasKey f y
      → older y x ≡ false
      → NoLater
          (stamp (parse_rfc3339 parse_time e.ts))
          e.tenant_id
          e.event_id
          (stamp (parse_rfc3339 parse_time f.ts))
          f.tenant_id
          f.event_id
  unfolding HasKey
  keys-NoLater e f x y (t, tenant, id) (t', tenant', id') h =
      rw⁻¹ (t, tenant, id, t', tenant', id') (older-NoLater x y h)

  key_of_item :
      (es : List Event) (i : ℕ) (x : Item) (e : Event)
      → x.position ≡ i
      → event_at es i ≡ some e
      → IsItemOf 0 es x
      → HasKey e x
  unfolding IsItemOf
  key_of_item es i x e at found (j, d, x_at, d_found, key) =
      let here : j ≡ i = omega (arith, at, x_at) in
      let both : some d ≡ some e = sym d_found ∙ ap (event_at es) here ∙ found in
      let same : d ≡ e = cc in subst (λ c. HasKey c x) same key

  -- A ledger with more than `max` events is cut down to exactly `max`: some positions go, the events at
  -- the others stay in their order, and an event that goes is no later than one that stays, by time (1970
  -- where it does not parse), then by tenant, then by identifier.
  pub evict_drops_oldest :
      (l : AppendOnly)
      → 0 < l.max
      → l.max < length l.events
      → (goes : ℕ → Bool) × ((evict_deterministic parse_time l).events ≡ survivors goes 0 l.events)
        × (length (evict_deterministic parse_time l).events ≡ l.max)
        × ((i j : ℕ) (e f : Event)
            → event_at l.events i ≡ some e
            → event_at l.events j ≡ some f
            → goes i ≡ true
            → goes j ≡ false
            → NoLater
                (stamp (parse_rfc3339 parse_time e.ts))
                e.tenant_id
                e.event_id
                (stamp (parse_rfc3339 parse_time f.ts))
                f.tenant_id
                f.event_id)
  evict_drops_oldest l p h =
      let items = items_of parse_time 0 l.events in
      let n = length l.events - l.max in
      let drop = take n (sort_items items) in
      let younger =
        All-unsort (Younger drop) items
          (take-Younger n (sort_items items) (sort_items-Sorted items)) in
      (
        λ i. is_dropped i drop,
        evict-survivors l p h,
        length-evict parse_time l p (omega (arith, h)),
        λ i j e f at_i at_j goes stays.
            (let (y, y_at, y_key, younger_y) =
                All-items_of (Younger drop) 0 j l.events f younger at_j in
              let y_stays : is_dropped y.position drop ≡ false =
                ap (λ q. is_dropped q drop) (omega (arith, y_at)) ∙ stays in
              let of_events =
                All-take (IsItemOf 0 l.events) n (sort_items items)
                  (All-sort_items (IsItemOf 0 l.events) items (items_of-IsItemOf 0 l.events)) in
              let (x, x_at, (x_of, not_older)) =
                All-dropped (λ z. IsItemOf 0 l.events z × (older y z ≡ false)) i drop
                  (All-both (IsItemOf 0 l.events) (λ z. older y z ≡ false) drop of_events
                    (younger_y y_stays))
                  goes in
              keys-NoLater e f x y (key_of_item l.events i x e x_at at_i x_of) y_key not_older),
      )
