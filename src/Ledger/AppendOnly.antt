-- ===== src/Ledger/AppendOnly.antt =====
-- The in-memory ledger, the first half of services/audit/internal/ledger/append_only.go. A call is
-- one step, under the mutex.
use chartly.Prelude.{
  ℕ, zero, suc, ◌-◌, ◌*◌, ◌^◌, Bool, true, false, ◌&&◌, ◌||◌, Option, none, some, List, [], ◌∷◌,
  ◌++◌, ◌⊎◌, inl, inr, if◌then◌else◌, ltb, leb, ◌==◌, length, take,
}
use chartly.Prelude.Int.{ℤ, or_default}
use chartly.Text.{Text, text_eq, text_lt, is_empty}
use chartly.Dict.{Dict, lookup, insert, is_some}
use chartly.Ledger.{Event, Error, norm, deep_copy_event, normalize_and_validate, parse_rfc3339}

-- `idx` gives, for a tenant and an event, a position in `events`.
pub record AppendOnly : Type 0 where
  pub max : ℕ
  pub events : List Event
  pub idx : Dict (Dict ℕ)

unfoldable pub new_append_only : ℤ → AppendOnly
new_append_only max_events = record { max = or_default max_events 100000; events = []; idx = [] }

-- idx[tenant], the empty map where there is none.
abbrev pub of_tenant : Option (Dict ℕ) → Dict ℕ
of_tenant none = []
of_tenant (some m) = m

-- idx[tenant][id]
unfoldable pub find : Text → Text → Dict (Dict ℕ) → Option ℕ
find tenant id idx = lookup id (of_tenant (lookup tenant idx))

-- if _, ok := idx[tenant]; !ok { idx[tenant] = make(...) }
abbrev pub make_tenant : Text → Dict (Dict ℕ) → Dict (Dict ℕ)
make_tenant tenant idx = if is_some (lookup tenant idx) then idx else insert tenant [] idx

-- idx[tenant][id] = pos, after idx[tenant] was made where it was missing.
unfoldable pub record_position : Event → ℕ → Dict (Dict ℕ) → Dict (Dict ℕ)
record_position ev position idx =
    insert ev.tenant_id (insert ev.event_id position (of_tenant (lookup ev.tenant_id idx))) idx

-- An event goes to the end of the slice, and its position into the index.
unfoldable pub push_event : Event → List Event × Dict (Dict ℕ) → List Event × Dict (Dict ℕ)
unfolding record_position
push_event ev (events, idx) = (events ++ ev ∷ [], record_position ev (length events) idx)

pub record Item : Type 0 where
  pub position : ℕ
  pub ts : ℕ
  pub tid : Text
  pub eid : Text

-- The order of `evictDeterministic`: by time, then by tenant, then by event.
unfoldable pub older : Item → Item → Bool
older a b =
    if ltb a.ts b.ts
    then true
    else if ltb b.ts a.ts
    then false
    else if text_eq a.tid b.tid
    then text_lt a.eid b.eid
    else text_lt a.tid b.tid

unfoldable pub place_item : Item → List Item → List Item
unfolding older
place_item x [] = x ∷ []
place_item x (y ∷ ys) = let rest = place_item x ys in if older y x then y ∷ rest else x ∷ y ∷ ys

-- sort.Slice; the items differ in tenant or event, so the order has no ties.
unfoldable pub sort_items : List Item → List Item
unfolding place_item
sort_items [] = []
sort_items (x ∷ xs) = place_item x (sort_items xs)

unfoldable pub is_dropped : ℕ → List Item → Bool
is_dropped i [] = false
is_dropped i (x ∷ xs) = (x.position == i) || is_dropped i xs

-- The last loop of `evictDeterministic`, from position `i` on.
unfoldable pub rebuild :
    List Item → ℕ → List Event → List Event × Dict (Dict ℕ) → List Event × Dict (Dict ℕ)
unfolding push_event is_dropped
rebuild drop i [] kept = kept
rebuild drop i (ev ∷ evs) kept =
    rebuild drop (suc i) evs (if is_dropped i drop then kept else push_event ev kept)

-- time.Unix(0, 0), from the day before the year 0.
abbrev pub unix_epoch : ℕ
unix_epoch = 719529 * 86400 * 10 ^ 9

abbrev pub ts_or_epoch : Option ℕ → ℕ
ts_or_epoch none = unix_epoch
ts_or_epoch (some t) = t

module _ (parse_time : Text → Option ℕ) where
  unfoldable pub items_of : ℕ → List Event → List Item
  unfolding parse_rfc3339
  items_of i [] = []
  items_of i (ev ∷ evs) =
      record {
        position = i;
        ts = ts_or_epoch (parse_rfc3339 parse_time ev.ts);
        tid = ev.tenant_id;
        eid = ev.event_id;
      }
      ∷ items_of (suc i) evs

  unfoldable pub evict_deterministic : AppendOnly → AppendOnly
  unfolding items_of sort_items rebuild
  evict_deterministic l =
      if leb (length l.events) l.max || (l.max == 0)
      then l
      else let drop = take (length l.events - l.max) (sort_items (items_of 0 l.events)) in
        let (events, idx) = rebuild drop 0 l.events ([], []) in
        record l { events = events; idx = idx }

  -- After an event was appended.
  unfoldable pub evict_if_needed : AppendOnly → AppendOnly
  unfolding evict_deterministic
  evict_if_needed l =
      if ltb 0 l.max && ltb l.max (length l.events) then evict_deterministic l else l

  -- `Append` with an event that is normalised.
  unfoldable pub append_normalized : AppendOnly → Event → AppendOnly × Bool
  unfolding find push_event evict_if_needed
  append_normalized l ev =
      let idx = make_tenant ev.tenant_id l.idx in
      if is_some (find ev.tenant_id ev.event_id idx)
      then (record l { idx = idx }, false)
      else let (events, idx') = push_event ev (l.events, idx) in
        (evict_if_needed (record l { events = events; idx = idx' }), true)

  unfoldable pub append_result : AppendOnly → Error ⊎ Event → AppendOnly × (Error ⊎ Bool)
  unfolding append_normalized
  append_result l (inl error) = (l, inl error)
  append_result l (inr ev) = let (l', inserted) = append_normalized l ev in (l', inr inserted)

  unfoldable pub append : AppendOnly → Event → AppendOnly × (Error ⊎ Bool)
  unfolding normalize_and_validate append_result
  append l e = append_result l (normalize_and_validate parse_time e)

unfoldable pub event_at : List Event → ℕ → Option Event
event_at [] i = none
event_at (e ∷ es) zero = some e
event_at (e ∷ es) (suc i) = event_at es i

unfoldable pub copied : Option Event → Option Event
unfolding deep_copy_event
copied none = none
copied (some e) = some (deep_copy_event e)

unfoldable pub get : AppendOnly → Text → Text → Option Event
unfolding norm find event_at copied
get l tenant_id event_id =
    let t = norm tenant_id in
    let id = norm event_id in
    if is_empty t || is_empty id
    then none
    else elim (find t id l.idx) [ none ↦ none | some i ↦ copied (event_at l.events i) ]

pub record Stats : Type 0 where
  pub total_events : ℕ
  pub tenants : ℕ
  pub max_events : ℕ

unfoldable pub stats : AppendOnly → Stats
stats l = record { total_events = length l.events; tenants = length l.idx; max_events = l.max }
