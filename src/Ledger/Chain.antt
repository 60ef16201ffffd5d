-- ===== src/Ledger/Chain.antt =====
-- The hash chain of services/audit/internal/ledger/hash_chain.go. The deep copies that BuildChain
-- takes have the values that they copy and are left out: the model shares nothing.
pub mod Canonical
pub mod Orders
pub mod Revisit
pub mod Rebuild
pub mod Tamper
mod Tests
use chartly.Prelude.{
  ℕ, suc, Bool, true, false, not, ◌&&◌, ◌||◌, Option, none, some, List, [], ◌∷◌, ◌++◌, ◌⊎◌, inl,
  inr, if◌then◌else◌, ltb, ◌==◌, length,
}
use chartly.Prelude.Sort.{sort_by}
use chartly.Text.{Text, lit, is_empty, text_eq, text_lt, trim_space}
use chartly.Idempotency.Encode.{hex_encode}
use chartly.Ledger.{Event, norm_collapse}
use chartly.Ledger.Listing.{or_zero_time}
use chartly.Ledger.Chain.Canonical.{
  Error, no_events, tenant_required, event_tenant_missing, mixed_tenant, id_ts_required, invalid_ts,
  chain_tenant_required, head_mismatch, count_mismatch, link_mismatch, Result, ◌>>=◌,
  canonical_event_bytes,
}

pub record Link : Type 0 where
  pub tenant_id : Text
  pub event_id : Text
  pub ts : Text
  pub prev_hash : Text
  pub hash : Text

pub record Chain : Type 0 where
  pub tenant_id : Text
  pub head : Text
  pub links : List Link

-- What stands outside the package: time.Parse with the layout RFC3339Nano or else RFC3339, in
-- nanoseconds from the day before the year 0; how encoding/json writes a float64, given by its bits;
-- and SHA-256, from bytes to bytes.
pub record External : Type 0 where
  pub parse_time : Text → Option ℕ
  pub format_float : ℕ → Result Text
  pub sha256 : List ℕ → List ℕ

abbrev pub genesis_prev_hash : Text
genesis_prev_hash = lit "GENESIS"

abbrev pub or_genesis : Text → Text
or_genesis [] = genesis_prev_hash
or_genesis (c ∷ s) = c ∷ s

-- The bytes that one step hashes.
unfoldable pub hash_input : Text → Text → Text
unfolding trim_space
hash_input prev bytes = or_genesis (trim_space prev) ++ 10 ∷ bytes

abbrev pub or_first_tenant : Text → List Event → Text
or_first_tenant [] [] = []
or_first_tenant [] (e ∷ es) = norm_collapse e.tenant_id
or_first_tenant (c ∷ t) es = c ∷ t

abbrev pub if_none {ℓ} : {A : Type ℓ} → Option Error → Result A → Result A
if_none (some e) r = inl e
if_none none r = r

abbrev pub first_error : Option Error → Option Error → Option Error
first_error (some e) next = some e
first_error none next = next

module _ (ext : External) where
  unfoldable pub hash_step : Text → Text → Text
  unfolding hash_input hex_encode
  hash_step prev bytes = hex_encode (ext.sha256 (hash_input prev bytes))

  unfoldable pub parse_rfc3339_strict : Text → Option ℕ
  unfolding norm_collapse
  parse_rfc3339_strict s =
      if is_empty (norm_collapse s) then none else ext.parse_time (norm_collapse s)

  -- The checks of the copying loop, for one event.
  unfoldable pub check_event : Text → Event → Option Error
  unfolding parse_rfc3339_strict
  check_event tid e =
      if is_empty (norm_collapse e.tenant_id)
      then some event_tenant_missing
      else if not (text_eq (norm_collapse e.tenant_id) tid)
      then some mixed_tenant
      else if is_empty (norm_collapse e.event_id) || is_empty (norm_collapse e.ts)
      then some id_ts_required
      else elim (parse_rfc3339_strict e.ts) [ none ↦ some invalid_ts | some t ↦ none ]

  unfoldable pub check_events : Text → List Event → Option Error
  unfolding check_event
  check_events tid [] = none
  check_events tid (e ∷ es) = first_error (check_event tid e) (check_events tid es)

  abbrev pub time_of : Event → ℕ
  time_of e = or_zero_time (parse_rfc3339_strict e.ts)

  unfoldable pub before : Event → Event → Bool
  unfolding parse_rfc3339_strict text_lt
  before a b =
      if ltb (time_of a) (time_of b)
      then true
      else if ltb (time_of b) (time_of a)
      then false
      else text_lt (norm_collapse a.event_id) (norm_collapse b.event_id)

  -- sort.Slice; events with one time and one identifier, whose order it leaves open, keep theirs.
  unfoldable pub sort_chain : List Event → List Event
  unfolding before sort_by
  sort_chain es = sort_by before es

  abbrev pub link_of : Text → Text → Event → Text → Link
  link_of tid prev e hash = record {
    tenant_id = tid;
    event_id = norm_collapse e.event_id;
    ts = norm_collapse e.ts;
    prev_hash = prev;
    hash = hash;
  }

  -- The last loop: the head and the links.
  unfoldable pub build_links : Text → Text → List Event → Result (Text × List Link)
  unfolding canonical_event_bytes hash_step
  build_links tid prev [] = inr (prev, [])
  build_links tid prev (e ∷ es) = canonical_event_bytes ext.format_float e >>= λ bytes.
      build_links tid (hash_step prev bytes) es >>= λ rest.
      inr (rest.0, link_of tid prev e (hash_step prev bytes) ∷ rest.1)

  unfoldable pub build_for : Text → List Event → Result Chain
  unfolding check_events sort_chain build_links
  build_for tid events =
      if is_empty tid
      then inl tenant_required
      else if_none (check_events tid events) (
          build_links tid genesis_prev_hash (sort_chain events) >>= λ built.
          inr (record { tenant_id = tid; head = built.0; links = built.1 }))

  unfoldable pub build_chain : Text → List Event → Result Chain
  unfolding build_for
  build_chain tenant_id [] = inl no_events
  build_chain tenant_id (e ∷ es) =
      build_for (or_first_tenant (norm_collapse tenant_id) (e ∷ es)) (e ∷ es)

unfoldable pub same_field : Text → Text → Bool
unfolding norm_collapse text_eq
same_field a b = text_eq (norm_collapse a) (norm_collapse b)

unfoldable pub same_link : Link → Link → Bool
unfolding same_field
same_link a b =
    same_field a.tenant_id b.tenant_id
    && (same_field a.event_id b.event_id
        && (same_field a.ts b.ts
            && (same_field a.prev_hash b.prev_hash && same_field a.hash b.hash)))

-- The links of the given chain against those built, which are as many.
unfoldable pub compare_links : ℕ → List Link → List Link → Option Error
unfolding same_link
compare_links i (a ∷ as') (b ∷ bs) =
    if same_link a b then compare_links (suc i) as' bs else some (link_mismatch i)
compare_links i _ _ = none

unfoldable pub compare_chains : Chain → Chain → Option Error
unfolding compare_links
compare_chains chain built =
    if same_field chain.head built.head
    then if length chain.links == length built.links
      then compare_links 0 chain.links built.links
      else some count_mismatch
    else some head_mismatch

abbrev pub against : Chain → Result Chain → Option Error
against chain (inl e) = some e
against chain (inr built) = compare_chains chain built

module _ (ext : External) where
  unfoldable pub verify_chain : Chain → List Event → Option Error
  unfolding build_chain compare_chains
  verify_chain chain events =
      if is_empty (norm_collapse chain.tenant_id)
      then some chain_tenant_required
      else against chain (build_chain ext (norm_collapse chain.tenant_id) events)
