-- ===== src/Ledger/Append.antt =====
-- What `Append` and `Get` do to a ledger.
use chartly.Prelude.{
  ℕ, ◌≤◌, ◌<◌, ◌≡◌, refl, sym, ap, ◌∙◌, false, not, ◌&&◌, ◌||◌, Option, none, some, List, [], ◌∷◌,
  ◌++◌, arith, if◌then◌else◌, ltb, leb, lt→ltb, le→ltb, ◌==◌, length, length-append, Bool-cases,
  Sum-cases, inl, inr,
}
use chartly.Prelude.Int.{ℤ, or_default-pos}
use chartly.Text.{Text, is_empty}
use chartly.Text.Laws.{text_eq_iff}
use chartly.Dict.{lookup, is_some}
use chartly.Ledger.{Event, Error, norm, deep_copy_event, normalize_and_validate}
use chartly.Ledger.AppendOnly.{
  AppendOnly, new_append_only, find, push_event, make_tenant, evict_deterministic, evict_if_needed,
  append_normalized, append, append_result, copied, get,
}
use chartly.Ledger.Index.{
  IsIndex, is_key, count_key, latest, latest-none, last_event, event_at-latest, last_event-append,
  count_key-append, count_key-rebuild, find-make_tenant, push_event-IsIndex, rebuild-IsIndex,
}
use chartly.Ledger.Evict.{length-evict}

-- The index leads to the events, no key stands twice, and there are at most `max` events.
pub record Inv (l : AppendOnly) : Type 0 where
  pub spare : 0 < l.max
  pub indexed : IsIndex (l.events, l.idx)
  pub once : (t id : Text) → count_key t id l.events ≤ 1
  pub room : length l.events ≤ l.max

-- The ledger without its index.
abbrev pub view : AppendOnly → Text → Text → Option Event
view l t id = last_event t id l.events

find-view :
    (l : AppendOnly) (t id : Text) → Inv l → is_some (find t id l.idx) ≡ is_some (view l t id)
find-view l t id v = elim (event_at-latest t id 0 l.events) [
  | inl (a, b) ↦ rw (v.indexed t id, a, b) refl
  | inr (k, x, a, b, c) ↦ rw (v.indexed t id, a, c) refl
]

-- `Get` finds what the list of events has under the key.
get-view :
    (l : AppendOnly) (tenant_id event_id : Text)
    → Inv l
    → get l tenant_id event_id ≡ (
        if is_empty (norm tenant_id) || is_empty (norm event_id)
        then none
        else copied (view l (norm tenant_id) (norm event_id)))
unfolding get copied
get-view l tenant_id event_id v =
    elim (event_at-latest (norm tenant_id) (norm event_id) 0 l.events) [
      | inl (a, c) ↦ rw (v.indexed (norm tenant_id) (norm event_id), a, c) refl
      | inr (k, x, a, b, c) ↦
          let here : latest (norm tenant_id) (norm event_id) 0 l.events ≡ some k =
            a ∙ ap some (omega arith) in
          rw (v.indexed (norm tenant_id) (norm event_id), here, b, c) refl
    ]

module _ (parse_time : Text → Option ℕ) where
  evict-IsIndex :
      (l : AppendOnly)
      → IsIndex (l.events, l.idx)
      → let l' = evict_deterministic parse_time l in IsIndex (l'.events, l'.idx)
  unfolding evict_deterministic
  evict-IsIndex l h = elim (Bool-cases (leb (length l.events) l.max || (l.max == 0))) [
    | inl y ↦ rw y h
    | inr n ↦
        rw n (rebuild-IsIndex _ 0 l.events ([], []) (λ t id. unfold find lookup latest in refl))
  ]

  evict-count :
      (l : AppendOnly) (t id : Text)
      → count_key t id (evict_deterministic parse_time l).events ≤ count_key t id l.events
  unfolding evict_deterministic count_key
  evict-count l t id = elim (Bool-cases (leb (length l.events) l.max || (l.max == 0))) [
    | inl y ↦ rw y (omega arith)
    | inr n ↦ rw n (omega (arith, count_key-rebuild t id _ 0 l.events ([], [])))
  ]

  max-evict : (l : AppendOnly) → (evict_deterministic parse_time l).max ≡ l.max
  unfolding evict_deterministic
  max-evict l = ground arith

  -- One event too many is evicted.
  evict-Inv :
      (l : AppendOnly)
      → 0 < l.max
      → IsIndex (l.events, l.idx)
      → ((t id : Text) → count_key t id l.events ≤ 1)
      → Inv (evict_if_needed parse_time l)
  unfolding evict_if_needed
  evict-Inv l p h once = elim (Bool-cases (ltb 0 l.max && ltb l.max (length l.events))) [
    | inr n ↦ rw n (record { spare = p; indexed = h; once = once; room = ground (arith, n, p) })
    | inl y ↦ rw y (record {
      spare = rw (max-evict l) p;
      indexed = evict-IsIndex l h;
      once = λ t id. omega (arith, evict-count l t id, once t id);
      room = omega (arith, max-evict l, length-evict parse_time l p (ground (arith, y)));
    })
  ]

  push_event-once :
      (l : AppendOnly) (ev : Event)
      → Inv l
      → is_some (find ev.tenant_id ev.event_id l.idx) ≡ false
      → (t id : Text) → count_key t id (l.events ++ ev ∷ []) ≤ 1
  push_event-once l ev v fresh t id =
      let absent =
        latest-none ev.tenant_id ev.event_id 0 l.events
          (ap is_some (sym (v.indexed ev.tenant_id ev.event_id)) ∙ fresh) in
      elim (Bool-cases (is_key t id ev)) [
        | inr n ↦ rw (count_key-append t id l.events ev, n) (v.once t id)
        | inl y ↦
            rw
              (
                count_key-append t id l.events ev,
                y,
                ← (text_eq_iff ev.tenant_id t).0 (ground (arith, y)),
                ← (text_eq_iff ev.event_id id).0 (ground (arith, y)),
                absent,
              )
              (omega arith)
      ]

  append_normalized-Inv :
      (l : AppendOnly) (ev : Event) → Inv l → Inv (append_normalized parse_time l ev).0
  unfolding append_normalized push_event
  append_normalized-Inv l ev v =
      let idx = make_tenant ev.tenant_id l.idx in
      let same : IsIndex (l.events, idx) =
        λ t id. find-make_tenant t id ev.tenant_id l.idx ∙ v.indexed t id in
      elim (Bool-cases (is_some (find ev.tenant_id ev.event_id idx))) [
        | inl y ↦ rw y (record { spare = v.spare; indexed = same; once = v.once; room = v.room })
        | inr n ↦ rw n (
            evict-Inv
              (record l {
                events = (push_event ev (l.events, idx)).0;
                idx = (push_event ev (l.events, idx)).1;
              })
              v.spare (push_event-IsIndex ev (l.events, idx) same)
              (push_event-once l ev v (
                ap is_some (sym (find-make_tenant ev.tenant_id ev.event_id ev.tenant_id l.idx))
                ∙ n)))
      ]

  append_valid :
      (l : AppendOnly) (e ev : Event)
      → normalize_and_validate parse_time e ≡ inr ev
      → append parse_time l e
        ≡ ((append_normalized parse_time l ev).0, inr (append_normalized parse_time l ev).1)
  unfolding append append_result
  append_valid l e ev h = ap (append_result parse_time l) h

  append_invalid :
      (l : AppendOnly) (e : Event) (error : Error)
      → normalize_and_validate parse_time e ≡ inl error
      → append parse_time l e ≡ (l, inl error)
  unfolding append append_result
  append_invalid l e error h = ap (append_result parse_time l) h

  append-Inv : (l : AppendOnly) (e : Event) → Inv l → Inv (append parse_time l e).0
  append-Inv l e v = elim (Sum-cases (normalize_and_validate parse_time e)) [
    | inl (error, h) ↦ rw (append_invalid l e error h) v
    | inr (ev, h) ↦ rw (append_valid l e ev h) (append_normalized-Inv l ev v)
  ]

  abbrev pub run : AppendOnly → List Event → AppendOnly
  run l [] = l
  run l (e ∷ es) = run (append parse_time l e).0 es

  run-Inv : (es : List Event) (l : AppendOnly) → Inv l → Inv (run l es)
  run-Inv [] l v = v
  run-Inv (e ∷ es) l v = run-Inv es (append parse_time l e).0 (append-Inv l e v)

  -- After any appends to a new ledger, valid or not, evictions included: the index leads to the last
  -- event under every key and to nothing else, no key stands twice, and at most `max` events are
  -- kept.
  pub run-new_append_only-Inv :
      (max_events : ℤ) (es : List Event) → Inv (run (new_append_only max_events) es)
  unfolding new_append_only
  run-new_append_only-Inv max_events es = run-Inv es (new_append_only max_events) (record {
    spare = or_default-pos max_events 100000 (omega arith);
    indexed = λ t id. unfold find lookup latest in refl;
    once = λ t id. unfold count_key in omega arith;
    room = omega arith;
  })

  -- Below capacity nothing is evicted.
  append_events :
      (l : AppendOnly) (ev : Event)
      → Inv l
      → length l.events < l.max
      → let (l', inserted) = append_normalized parse_time l ev in
        let fresh = not (is_some (view l ev.tenant_id ev.event_id)) in
        (inserted ≡ fresh) × (l'.events ≡ (if fresh then l.events ++ ev ∷ [] else l.events))
  unfolding append_normalized push_event evict_if_needed
  append_events l ev v h =
      let idx = make_tenant ev.tenant_id l.idx in
      let seen : is_some (find ev.tenant_id ev.event_id idx)
          ≡ is_some (view l ev.tenant_id ev.event_id) =
        ap is_some (find-make_tenant ev.tenant_id ev.event_id ev.tenant_id l.idx)
        ∙ find-view l ev.tenant_id ev.event_id v in
      let fits =
        le→ltb (length (l.events ++ ev ∷ [])) l.max
          (omega (arith, h, length-append l.events (ev ∷ []))) in
      elim (Bool-cases (is_some (view l ev.tenant_id ev.event_id))) [
        | inl y ↦ rw (seen, y) (refl, refl)
        | inr n ↦ rw (seen, n, fits, lt→ltb 0 l.max v.spare) (refl, refl)
      ]

  normalized_fields :
      (e ev : Event)
      → normalize_and_validate parse_time e ≡ inr ev
      → (is_empty ev.tenant_id ≡ false) × (is_empty ev.event_id ≡ false)
  unfolding normalize_and_validate
  normalized_fields e ev h = ground (arith, h)

  -- Below capacity, `Append` of a valid event reports whether its key was free, and then it adds
  -- the event. What `Get` finds changes under the key of an added event only: there it is a copy of
  -- the event, and an event that stands under the key already stays.
  pub append-get :
      (l : AppendOnly) (e ev : Event) (tenant_id event_id : Text)
      → Inv l
      → length l.events < l.max
      → normalize_and_validate parse_time e ≡ inr ev
      → let (l', result) = append parse_time l e in
        let fresh = not (is_some (view l ev.tenant_id ev.event_id)) in
        (result ≡ inr fresh)
        × (get l' tenant_id event_id ≡ (
            if fresh && is_key (norm tenant_id) (norm event_id) ev
            then some (deep_copy_event ev)
            else get l tenant_id event_id))
  unfolding copied
  append-get l e ev tenant_id event_id v h valid =
      let (answer, events) = append_events l ev v h in
      let l' = (append_normalized parse_time l ev).0 in
      let (tenant, event) = normalized_fields e ev valid in
      let t = norm tenant_id in
      let id = norm event_id in
      let seen : view l' t id ≡ (
          if not (is_some (view l ev.tenant_id ev.event_id)) && is_key t id ev
          then some ev
          else view l t id) =
        ap (last_event t id) events ∙ ground (arith, last_event-append t id l.events ev) in
      rw
        (
          append_valid l e ev valid,
          get-view l' tenant_id event_id (append_normalized-Inv l ev v),
          get-view l tenant_id event_id v,
          seen,
        )
        (
          ap inr answer,
          ground (arith, tenant, event, text_eq_iff ev.tenant_id t, text_eq_iff ev.event_id id),
        )
