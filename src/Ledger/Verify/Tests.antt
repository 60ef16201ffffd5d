-- ===== src/Ledger/Verify/Tests.antt =====
-- Concrete events before VerifyEvents.
use chartly.Prelude.{
  ℕ, ◌≡◌, ◌≢◌, ◌↔◌, refl, arith, true, false, Option, none, some, List, [], ◌∷◌, inr,
}
use chartly.Prelude.Int.{pos}
use chartly.Text.{Text, lit, text_eq, text_lt, trim_space}
use chartly.Text.Sort.{sort, place}
use chartly.Dict.{lookup, insert}
use chartly.Idempotency.Encode.{hex_encode, json_string}
use chartly.Ledger.{Event, norm_collapse}
use chartly.Ledger.Chain.{External, Chain}
use chartly.Ledger.Visits as Visits
use chartly.Ledger.Chain.Orders.{AllRevisited, no_detail}
use chartly.Ledger.Verify.{
  VerifyOptions, duplicate, verify_events, verify_ledger_snapshot, verify_chain_matches,
}
use chartly.Ledger.Verify.Monotonic.{verify_events_ignores_monotonic}
use chartly.Ledger.Verify.Accepted.{IsAccepted, tenant_of, verify_events_accepts}
use chartly.Ledger.Verify.Snapshot.{snapshot_matches}

abbrev clock : Text → Option ℕ
clock (c ∷ []) = some c
clock _ = none

abbrev external : External
external = record { parse_time = clock; format_float = λ x. inr (lit "0"); sha256 = λ bs. 17 ∷ [] }

abbrev event : Text → Text → Text → Event
event tenant id ts = record {
  tenant_id = tenant;
  event_id = id;
  ts = ts;
  action = lit "login";
  object_key = [];
  request_id = [];
  actor_id = [];
  source = [];
  outcome = lit "ok";
  detail = [];
  meta = [];
}

abbrev falling : List Event
falling = event (lit "t") (lit "b") (lit "2") ∷ event (lit "t") (lit "a") (lit "1") ∷ []

abbrev options : VerifyOptions
options = record { enforce_tenant_id = true; require_monotonic_ts = true; max_events = pos 0 }

falling_accepted : verify_events external [] falling options ≡ none
unfolding verify_events trim_space norm_collapse text_eq
falling_accepted = refl

verify_events_ignores_monotonic_example :
    verify_events external [] falling options
    ≡ verify_events external [] falling (record options { require_monotonic_ts = false })
verify_events_ignores_monotonic_example =
    verify_events_ignores_monotonic external [] falling options true

verify_events_accepts_example :
    (verify_events external [] falling options ≡ none)
    ↔ IsAccepted external options (tenant_of [] falling) falling
verify_events_accepts_example = verify_events_accepts external [] falling options

-- Two tenants whose events have one key.
abbrev bars : List Event
bars = event (lit "a|b") (lit "c") (lit "1") ∷ event (lit "a") (lit "b|c") (lit "1") ∷ []

bars_refused :
    verify_events external [] bars (record options { enforce_tenant_id = false })
    ≡ some (duplicate (lit "a") (lit "b|c"))
unfolding verify_events trim_space norm_collapse text_eq
bars_refused = refl

abbrev falling_chain : Chain
falling_chain = record {
  tenant_id = lit "t";
  head = lit "11";
  links =
      record {
        tenant_id = lit "t";
        event_id = lit "a";
        ts = lit "1";
        prev_hash = lit "GENESIS";
        hash = lit "11";
      }
      ∷ record {
        tenant_id = lit "t";
        event_id = lit "b";
        ts = lit "2";
        prev_hash = lit "11";
        hash = lit "11";
      }
      ∷ [];
}

-- The events with two entries in the first map, visited in one order and in the other.
abbrev mapped : List Event
mapped =
    record (event (lit "t") (lit "b") (lit "2")) {
      meta = (lit "x", lit "1") ∷ (lit "y", lit "2") ∷ [];
    }
    ∷ event (lit "t") (lit "a") (lit "1")
    ∷ []

abbrev mapped_again : List Event
mapped_again =
    record (event (lit "t") (lit "b") (lit "2")) {
      meta = (lit "y", lit "2") ∷ (lit "x", lit "1") ∷ [];
    }
    ∷ event (lit "t") (lit "a") (lit "1")
    ∷ []

keys_differ : norm_collapse (lit "x") ≢ norm_collapse (lit "y")
unfolding norm_collapse trim_space
keys_differ e = absurd (ground (arith, e))

mapped_visits : AllRevisited mapped mapped_again
mapped_visits = (
  record {
    fields = refl;
    detail = no_detail;
    meta = Visits.swap (lit "x") (lit "y") (lit "1") (lit "2") [] keys_differ;
  },
  (record { fields = refl; detail = no_detail; meta = Visits.nil }, tt),
)

mapped_snapshot : verify_ledger_snapshot external [] mapped options ≡ inr falling_chain
unfolding verify_ledger_snapshot trim_space norm_collapse text_eq text_lt sort place lookup insert
    json_string hex_encode
mapped_snapshot = refl

snapshot_matches_example :
    verify_chain_matches external [] falling_chain mapped_again options ≡ none
snapshot_matches_example =
    snapshot_matches external [] mapped mapped_again options falling_chain mapped_snapshot
      mapped_visits
