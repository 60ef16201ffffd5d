-- ===== src/Ledger/Tests.antt =====
-- Concrete ledgers. The clock of the tests reads a text of one byte.
use chartly.Prelude.{
  ℕ, ◌<◌, ◌≡◌, ◌≢◌, refl, Bool, true, false, not, ◌&&◌, Option, none, some, List, [], ◌∷◌, map,
  arith, inl, inr, length, if◌then◌else◌,
}
use chartly.Prelude.Int.{pos}
use chartly.Text.{Text, lit, text_eq, text_lt, trim_space}
use chartly.Text.Sort.{sort, place}
use chartly.Dict.{lookup, insert, is_some}
use chartly.Ledger.{
  Event, ts_invalid, norm, deep_copy_event, normalize_and_validate, normalize_string_map,
  norm_collapse, parse_rfc3339,
}
use chartly.Ledger.AppendOnly.{
  AppendOnly, evict_deterministic, event_at, new_append_only, append, get,
}
use chartly.Ledger.Normal.{colliding_keys}
use chartly.Ledger.Index.{is_key}
use chartly.Ledger.Listing.{list}
use chartly.Ledger.Ascending.{IsListing, list-IsListing}
use chartly.Ledger.Oldest.{stamp, NoLater, survivors, evict_drops_oldest}
use chartly.Ledger.Append.{Inv, view, run, run-new_append_only-Inv, append-get}

abbrev clock : Text → Option ℕ
clock (c ∷ []) = some c
clock _ = none

abbrev login : Text → Text → Event
login id ts = record {
  tenant_id = lit "t";
  event_id = id;
  ts = ts;
  action = lit "login";
  object_key = [];
  request_id = [];
  actor_id = [];
  source = [];
  outcome = lit "ok";
  detail = [];
  meta = [];
}

abbrev three : List Event
three = login (lit "b") (lit "2") ∷ login (lit "c") (lit "3") ∷ login (lit "a") (lit "1") ∷ []

-- A third event is the oldest, and is evicted at once.
oldest_goes :
    map (λ e. e.event_id) (run clock (new_append_only (pos 2)) three).events
    ≡ lit "b" ∷ lit "c" ∷ []
unfolding append new_append_only trim_space norm text_eq text_lt sort place lookup insert
oldest_goes = refl

bad_time :
    (append clock (new_append_only (pos 2)) (login (lit "a") (lit "noon"))).1 ≡ inl ts_invalid
unfolding append trim_space
bad_time = refl

run-new_append_only-Inv_example : Inv (run clock (new_append_only (pos 2)) three)
run-new_append_only-Inv_example = run-new_append_only-Inv clock (pos 2) three

abbrev empty : AppendOnly
empty = new_append_only (pos 2)

empty-Inv : Inv (run clock empty [])
empty-Inv = run-new_append_only-Inv clock (pos 2) []

login_valid :
    normalize_and_validate clock (login (lit "a") (lit "1")) ≡ inr (login (lit "a") (lit "1"))
unfolding normalize_and_validate trim_space sort
login_valid = refl

room : length empty.events < empty.max
unfolding new_append_only
room = omega arith

append-get_example :
    let ev = login (lit "a") (lit "1") in
    let (l', result) = append clock empty ev in
    let fresh = not (is_some (view empty ev.tenant_id ev.event_id)) in
    (result ≡ inr fresh)
    × (get l' (lit " t ") (lit "a") ≡ (
        if fresh && is_key (norm (lit " t ")) (norm (lit "a")) ev
        then some (deep_copy_event ev)
        else get empty (lit " t ") (lit "a")))
append-get_example =
    append-get clock empty (login (lit "a") (lit "1")) (login (lit "a") (lit "1")) (lit " t ")
      (lit "a") empty-Inv room login_valid

-- Two keys of a map that are one after the collapse of blanks: the later of the loop stays.
first_order :
    normalize_string_map ((lit "k", lit "1") ∷ (lit " k", lit "2") ∷ []) ≡ (lit "k", lit "2") ∷ []
unfolding normalize_string_map norm_collapse trim_space text_eq insert lookup sort place
first_order = refl

other_order :
    normalize_string_map ((lit " k", lit "2") ∷ (lit "k", lit "1") ∷ []) ≡ (lit "k", lit "1") ∷ []
unfolding normalize_string_map norm_collapse trim_space text_eq insert lookup sort place
other_order = refl

colliding_keys_example :
    normalize_string_map ((lit "k", lit "1") ∷ (lit " k", lit "2") ∷ [])
    ≢ normalize_string_map ((lit " k", lit "2") ∷ (lit "k", lit "1") ∷ [])
unfolding norm_collapse trim_space
colliding_keys_example =
    colliding_keys (lit "k") (lit " k") (lit "1") (lit "2") refl refl (λ e. ground (arith, e))

-- The events after the time of the byte `1`.
abbrev later : List Event
later = login (lit "b") (lit "2") ∷ login (lit "c") (lit "3") ∷ []

later_listed :
    list clock (run clock (new_append_only (pos 5)) three) (lit "t") (lit "1") (pos 0) ≡ inr later
unfolding list append new_append_only trim_space norm text_eq text_lt sort place lookup insert
later_listed = refl

list-IsListing_example :
    IsListing clock (run clock (new_append_only (pos 5)) three) (lit "t") (lit "1") (pos 0) later
list-IsListing_example =
    list-IsListing clock (run clock (new_append_only (pos 5)) three) (lit "t") (lit "1") (pos 0)
      later later_listed

-- One event too many.
abbrev crowded : AppendOnly
crowded = record { max = 2; events = three; idx = [] }

evict_drops_oldest_example :
    (goes : ℕ → Bool) × ((evict_deterministic clock crowded).events
      ≡ survivors goes 0 crowded.events)
    × (length (evict_deterministic clock crowded).events ≡ 2)
    × ((i j : ℕ) (e f : Event)
        → event_at crowded.events i ≡ some e
        → event_at crowded.events j ≡ some f
        → goes i ≡ true
        → goes j ≡ false
        → NoLater
            (stamp (parse_rfc3339 clock e.ts))
            e.tenant_id
            e.event_id
            (stamp (parse_rfc3339 clock f.ts))
            f.tenant_id
            f.event_id)
evict_drops_oldest_example = evict_drops_oldest clock crowded (omega arith) (omega arith)
