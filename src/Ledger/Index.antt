-- ===== src/Ledger/Index.antt =====
-- The index of the ledger against the slice of its events.
use chartly.Prelude.{
  ℕ, suc, ◌+◌, ◌≤◌, ◌≡◌, refl, sym, ap, ◌∙◌, Bool, true, false, ◌&&◌, Option, none, some, List, [],
  ◌∷◌, ◌++◌, arith, if◌then◌else◌, length, Bool-cases, ◌⊎◌, inl, inr,
}
use mathlib.Core.Path.{subst}
use chartly.Text.{Text, text_eq}
use chartly.Text.Laws.{text_eq_iff}
use chartly.Dict.{Dict, lookup, insert, is_some, lookup-insert}
use chartly.Ledger.{Event}
use chartly.Ledger.AppendOnly.{
  of_tenant, find, record_position, push_event, Item, is_dropped, rebuild, make_tenant, event_at,
}

abbrev pub is_key : Text → Text → Event → Bool
is_key t id e = text_eq e.tenant_id t && text_eq e.event_id id

-- How many events there are under a key, and the position of the last of them.
unfoldable pub count_key : Text → Text → List Event → ℕ
count_key t id [] = 0
count_key t id (e ∷ es) = let rest = count_key t id es in if is_key t id e then suc rest else rest

abbrev pub or_here : Bool → ℕ → Option ℕ → Option ℕ
or_here here i (some j) = some j
or_here here i none = if here then some i else none

unfoldable pub latest : Text → Text → ℕ → List Event → Option ℕ
latest t id i [] = none
latest t id i (e ∷ es) = or_here (is_key t id e) i (latest t id (suc i) es)

-- The index leads to the last event under every key.
abbrev pub IsIndex : List Event × Dict (Dict ℕ) → Type 0
IsIndex (events, idx) = (t id : Text) → find t id idx ≡ latest t id 0 events

module _ (t id : Text) where
  pub latest-append :
      (i : ℕ) (es : List Event) (ev : Event)
      → latest t id i (es ++ ev ∷ [])
        ≡ (if is_key t id ev then some (i + length es) else latest t id i es)
  unfolding latest
  latest-append i [] ev = ground arith
  latest-append i (e ∷ es) ev = ground (arith, latest-append (suc i) es ev)

  pub count_key-append :
      (es : List Event) (ev : Event)
      → count_key t id (es ++ ev ∷ [])
        ≡ (if is_key t id ev then suc (count_key t id es) else count_key t id es)
  unfolding count_key
  count_key-append [] ev = refl
  count_key-append (e ∷ es) ev = ground (arith, count_key-append es ev)

  -- There is no last event exactly where there is none.
  pub latest-none :
      (i : ℕ) (es : List Event) → is_some (latest t id i es) ≡ false → count_key t id es ≡ 0
  unfolding latest count_key
  latest-none i [] h = refl
  latest-none i (e ∷ es) h = ground (arith, h, latest-none (suc i) es)

  abbrev pub or_this : Event → Option Event → Option Event
  or_this e (some x) = some x
  or_this e none = if is_key t id e then some e else none

  -- The last event under a key.
  unfoldable pub last_event : List Event → Option Event
  last_event [] = none
  last_event (e ∷ es) = or_this e (last_event es)

  pub event_at-latest :
      (i : ℕ) (es : List Event)
      → ((latest t id i es ≡ none) × (last_event es ≡ none))
        ⊎ ((k : ℕ) × (x : Event) × (latest t id i es ≡ some (i + k))
            × (event_at es k ≡ some x)
            × (last_event es ≡ some x))
  unfolding latest event_at last_event
  event_at-latest i [] = inl (refl, refl)
  event_at-latest i (e ∷ es) = elim (event_at-latest (suc i) es) [
    | inr (k, x, a, b, c) ↦ inr (suc k, x, rw a (ap some (omega arith)), b, rw c refl)
    | inl (a, c) ↦ elim (Bool-cases (is_key t id e)) [
      | inl y ↦ inr (0, e, rw (a, y) (ap some (omega arith)), refl, rw (c, y) refl)
      | inr n ↦ inl (rw (a, n) refl, rw (c, n) refl)
    ]
  ]

  pub last_event-append :
      (es : List Event) (ev : Event)
      → last_event (es ++ ev ∷ []) ≡ (if is_key t id ev then some ev else last_event es)
  unfolding last_event
  last_event-append [] ev = refl
  last_event-append (e ∷ es) ev = ground (arith, last_event-append es ev)

  pub find-record_position :
      (ev : Event) (p : ℕ) (idx : Dict (Dict ℕ))
      → find t id (record_position ev p idx) ≡ (if is_key t id ev then some p else find t id idx)
  unfolding find record_position
  find-record_position ev p idx =
      let inner = insert ev.event_id p (of_tenant (lookup ev.tenant_id idx)) in
      elim (Bool-cases (text_eq ev.tenant_id t)) [
        | inl e ↦
            rw (lookup-insert ev.tenant_id t inner idx, e)
              (rw ((text_eq_iff ev.tenant_id t).0 e)
                (lookup-insert ev.event_id id p (of_tenant (lookup t idx))))
        | inr n ↦ rw (lookup-insert ev.tenant_id t inner idx, n) refl
      ]

  pub find-make_tenant :
      (tenant : Text) (idx : Dict (Dict ℕ)) → find t id (make_tenant tenant idx) ≡ find t id idx
  unfolding find
  find-make_tenant tenant idx = elim (Bool-cases (is_some (lookup tenant idx))) [
    | inl y ↦ rw y refl
    | inr n ↦
        rw (n, lookup-insert tenant t [] idx)
          (elim (Bool-cases (text_eq tenant t)) [
            | inl e ↦ rw e (
                nothing (lookup t idx)
                  (subst (λ k. is_some (lookup k idx) ≡ false) ((text_eq_iff tenant t).0 e) n))
            | inr other ↦ rw other refl
          ])
  ]
    where
      nothing : (o : Option (Dict ℕ)) → is_some o ≡ false → lookup id [] ≡ lookup id (of_tenant o)
      nothing none h = refl
      nothing (some m) h = absurd (ground (arith, h))

  pub count_key-rebuild :
      (drop : List Item) (i : ℕ) (evs : List Event) (kept : List Event × Dict (Dict ℕ))
      → count_key t id (rebuild drop i evs kept).0 ≤ count_key t id kept.0 + count_key t id evs
  unfolding rebuild push_event count_key
  count_key-rebuild drop i [] kept = omega arith
  count_key-rebuild drop i (ev ∷ evs) kept = ground (
    arith,
    count_key-rebuild drop (suc i) evs (if is_dropped i drop then kept else push_event ev kept),
    count_key-append kept.0 ev,
  )

pub push_event-IsIndex :
    (ev : Event) (kept : List Event × Dict (Dict ℕ)) → IsIndex kept → IsIndex (push_event ev kept)
unfolding push_event
push_event-IsIndex ev (events, idx) h t id =
    find-record_position t id ev (length events) idx
    ∙ rw (h t id) (sym (latest-append t id 0 events ev ∙ ground arith))

pub rebuild-IsIndex :
    (drop : List Item) (i : ℕ) (evs : List Event) (kept : List Event × Dict (Dict ℕ))
    → IsIndex kept
    → IsIndex (rebuild drop i evs kept)
unfolding rebuild
rebuild-IsIndex drop i [] kept h = h
rebuild-IsIndex drop i (ev ∷ evs) kept h =
    rebuild-IsIndex drop (suc i) evs (if is_dropped i drop then kept else push_event ev kept)
      (elim (is_dropped i drop) as (λ b. IsIndex (if b then kept else push_event ev kept)) [
        | true ↦ h
        | false ↦ push_event-IsIndex ev kept h
      ])
