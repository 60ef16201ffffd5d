-- ===== src/Ledger/Chain/Tests.antt =====
-- A concrete chain. The clock reads a text of one byte, and the digest of the tests is the sum of
-- the bytes, on one byte.
use chartly.Prelude.{
  ℕ, ◌+◌, ◌%◌, ◌≡◌, ◌≢◌, refl, arith, true, Option, none, some, List, [], ◌∷◌, ◌⊎◌, inl, inr, map,
}
use chartly.Text.{Text, lit, text_eq, text_lt, trim_space}
use chartly.Text.Sort.{sort, place}
use chartly.Dict.{lookup, insert}
use chartly.Idempotency.Encode.{hex_encode, json_string}
use chartly.Ledger.{Event, bool, string, object, entry, no_entry, norm_collapse}
use chartly.Ledger.Visits as Visits
use chartly.Ledger.Chain.Orders.{
  AllRevisited, no_detail, related_field, same_object, swap_entries,
  canonical_event_bytes-Revisited,
}
use chartly.Ledger.Chain.{Link, Chain, External, build_chain, verify_chain, sort_chain, same_field}
use chartly.Ledger.Chain.Canonical.{mixed_tenant, head_mismatch, canonical_event_bytes}
use chartly.Ledger.Chain.Rebuild.{build_chain-verify_chain}
use chartly.Ledger.Chain.Tamper.{Collision, bytes_of, verify_chain-bytes}

abbrev pub clock : Text → Option ℕ
clock (c ∷ []) = some c
clock _ = none

abbrev pub sum : List ℕ → ℕ
sum [] = 0
sum (b ∷ bs) = (b + sum bs) % 256

abbrev pub external : External
external = record {
  parse_time = clock;
  format_float = λ x. inr (lit "0");
  sha256 = λ bs. sum bs ∷ [];
}

abbrev pub login : Text → Text → Event
login id ts = record {
  tenant_id = lit " t ";
  event_id = id;
  ts = ts;
  action = lit "login";
  object_key = [];
  request_id = lit "r";
  actor_id = [];
  source = [];
  outcome = lit "ok";
  detail = (lit "n", bool true) ∷ [];
  meta = (lit " k  1 ", lit "v") ∷ [];
}

abbrev pub two : List Event
two = login (lit "b") (lit "2") ∷ login (lit "a") (lit "1") ∷ []

login_bytes :
    canonical_event_bytes external.format_float (login (lit "a") (lit "1"))
    ≡ inr (
        lit
          "{\"tenant_id\":\"t\",\"event_id\":\"a\",\"ts\":\"1\",\"action\":\"login\",\"request_id\":\"r\",\"outcome\":\"ok\",\"meta\":[{\"k\":\"k 1\",\"v\":\"v\"}],\"detail\":[{\"k\":\"n\",\"v\":true}]}")
unfolding canonical_event_bytes trim_space text_eq text_lt sort place lookup insert norm_collapse
    json_string
login_bytes = refl

abbrev link : Text → Text → Text → Text → Link
link id ts prev hash = record {
  tenant_id = lit "t";
  event_id = id;
  ts = ts;
  prev_hash = prev;
  hash = hash;
}

abbrev pub two_chain : Chain
two_chain = record {
  tenant_id = lit "t";
  head = lit "ee";
  links =
      link (lit "a") (lit "1") (lit "GENESIS") (lit "89")
      ∷ link (lit "b") (lit "2") (lit "89") (lit "ee")
      ∷ [];
}

two_built : build_chain external [] two ≡ inr two_chain
unfolding build_chain trim_space text_eq text_lt sort place lookup insert norm_collapse json_string
    hex_encode
two_built = refl

two_verified : verify_chain external two_chain two ≡ none
unfolding build_chain trim_space text_eq text_lt sort place lookup insert norm_collapse json_string
    hex_encode verify_chain same_field
two_verified = refl

-- An event with a nested map, visited in one order and in the other.
abbrev nested : Text → Text → Text → Text → Event
nested k v j w = record (login (lit "a") (lit "1")) {
  detail = (lit "m", object (entry k (string v) (entry j (string w) no_entry))) ∷ [];
}

abbrev nested_chain : Chain
nested_chain = record {
  tenant_id = lit "t";
  head = lit "12";
  links = link (lit "a") (lit "1") (lit "GENESIS") (lit "12") ∷ [];
}

nested_built :
    build_chain external [] (nested (lit "x") (lit "1") (lit "y") (lit "2") ∷ []) ≡ inr nested_chain
unfolding build_chain trim_space text_eq text_lt sort place lookup insert norm_collapse json_string
    hex_encode
nested_built = refl

keys_differ : norm_collapse (lit "x") ≢ norm_collapse (lit "y")
unfolding norm_collapse trim_space
keys_differ e = absurd (ground (arith, e))

nested_visits :
    AllRevisited
      (nested (lit "x") (lit "1") (lit "y") (lit "2") ∷ [])
      (nested (lit "y") (lit "2") (lit "x") (lit "1") ∷ [])
nested_visits = (
  record {
    fields = refl;
    detail =
        related_field (lit "m")
          (same_object (
            swap_entries (lit "x") (lit "y") (string (lit "1")) (string (lit "2")) no_entry
              keys_differ))
          no_detail;
    meta = Visits.cons (lit " k  1 ") (lit "v") Visits.nil;
  },
  tt,
)

build_chain-verify_chain_example :
    verify_chain external nested_chain (nested (lit "y") (lit "2") (lit "x") (lit "1") ∷ []) ≡ none
build_chain-verify_chain_example =
    build_chain-verify_chain external [] (nested (lit "x") (lit "1") (lit "y") (lit "2") ∷ [])
      (nested (lit "y") (lit "2") (lit "x") (lit "1") ∷ []) nested_chain nested_built nested_visits

-- The same bytes in another order have the digest of the tests.
abbrev with_action : Text → Event → Event
with_action a e = record e { action = a }

abbrev anagrams : List Event
anagrams = map (with_action (lit "nigol")) two

anagrams_verified : verify_chain external two_chain anagrams ≡ none
unfolding build_chain trim_space text_eq text_lt sort place lookup insert norm_collapse json_string
    hex_encode verify_chain same_field
anagrams_verified = refl

verify_chain-bytes_example :
    (bytes_of external (sort_chain external two) ≡ bytes_of external (sort_chain external anagrams))
    ⊎ Collision external
verify_chain-bytes_example =
    verify_chain-bytes external two_chain two anagrams two_verified anagrams_verified

-- Events whose action was changed.
tampered_refused :
    verify_chain external two_chain (map (with_action (lit "logon")) two) ≡ some head_mismatch
unfolding build_chain trim_space text_eq text_lt sort place lookup insert norm_collapse json_string
    hex_encode verify_chain same_field
tampered_refused = refl

mixed_refused : build_chain external (lit "u") two ≡ inl mixed_tenant
unfolding build_chain trim_space text_eq text_lt sort place lookup insert norm_collapse json_string
    hex_encode
mixed_refused = refl

canonical_event_bytes-Revisited_example :
    canonical_event_bytes external.format_float (nested (lit "x") (lit "1") (lit "y") (lit "2"))
    ≡ canonical_event_bytes external.format_float (nested (lit "y") (lit "2") (lit "x") (lit "1"))
canonical_event_bytes-Revisited_example =
    canonical_event_bytes-Revisited external.format_float
      (nested (lit "x") (lit "1") (lit "y") (lit "2"))
      (nested (lit "y") (lit "2") (lit "x") (lit "1")) nested_visits.0
