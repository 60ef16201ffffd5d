-- ===== src/Ledger/Verify.antt =====
-- Checks of event sets, services/audit/internal/ledger/verification.go.
pub mod Monotonic
pub mod Seen
pub mod Accepted
pub mod Snapshot
mod Tests
use chartly.Prelude.{
  ℕ, suc, Bool, true, false, not, ◌&&◌, ◌||◌, Option, none, some, List, [], ◌∷◌, ◌++◌, map, ◌⊎◌,
  inl, inr, if◌then◌else◌, ltb, length,
}
use chartly.Prelude.Int.{ℤ, pos, negsuc, or_default}
use chartly.Prelude.Sort.{sort_by}
use chartly.Text.{Text, is_empty, text_eq, text_lt}
use chartly.Dict.{is_some}
use chartly.Ledger.{Event, norm_collapse}
use chartly.Ledger.Listing.{or_zero_time}
use chartly.Ledger.Chain.{
  Chain, External, or_first_tenant, parse_rfc3339_strict, build_chain, verify_chain,
}
use chartly.Ledger.Chain.Canonical as Canonical

pub data Error : Type 0 where
  no_events too_many tenant_required not_monotonic chain_tenant_mismatch : Error
  missing_tenant tenant_mismatch missing_fields invalid_ts : ℕ → Error
  duplicate : Text → Text → Error
  not_built not_matched : Canonical.Error → Error

pub record VerifyOptions : Type 0 where
  pub enforce_tenant_id : Bool
  pub require_monotonic_ts : Bool
  pub max_events : ℤ

unfoldable pub normalize_verify_options : VerifyOptions → VerifyOptions
normalize_verify_options opts = record opts { max_events = pos (or_default opts.max_events 200000) }

abbrev pub exceeds : ℕ → ℤ → Bool
exceeds n (pos m) = ltb 0 m && ltb m n
exceeds n (negsuc m) = false

unfoldable pub contains : Text → List Text → Bool
unfolding text_eq
contains k [] = false
contains k (x ∷ xs) = text_eq x k || contains k xs

-- The key of an event in the set of those seen.
unfoldable pub duplicate_key : Event → Text
unfolding norm_collapse
duplicate_key e = norm_collapse e.tenant_id ++ b'|' ∷ norm_collapse e.event_id

abbrev pub first_error : Option Error → Option Error → Option Error
first_error (some e) next = some e
first_error none next = next

unfoldable pub check_tenant : Bool → Text → ℕ → Event → Option Error
unfolding norm_collapse text_eq
check_tenant enforce tid i e =
    if not enforce
    then none
    else if is_empty (norm_collapse e.tenant_id)
    then some (missing_tenant i)
    else if not (is_empty tid) && not (text_eq (norm_collapse e.tenant_id) tid)
    then some (tenant_mismatch i)
    else none

unfoldable pub lacks_required : Event → Bool
unfolding norm_collapse
lacks_required e =
    is_empty (norm_collapse e.event_id)
    || (is_empty (norm_collapse e.ts)
        || (is_empty (norm_collapse e.action) || is_empty (norm_collapse e.outcome)))

abbrev pub Item : Type 0
Item = ℕ × Text

unfoldable pub item_before : Item → Item → Bool
unfolding text_lt
item_before a b = if ltb a.0 b.0 then true else if ltb b.0 a.0 then false else text_lt a.1 b.1

-- The last loop over the sorted view.
unfoldable pub has_descent : List Item → Bool
has_descent [] = false
has_descent (a ∷ []) = false
has_descent (a ∷ b ∷ items) = ltb b.0 a.0 || has_descent (b ∷ items)

abbrev pub first_non_empty : Text → Text → Text
first_non_empty [] t = t
first_non_empty (c ∷ s) t = c ∷ s

abbrev pub built : Canonical.Result Chain → Error ⊎ Chain
built (inl e) = inl (not_built e)
built (inr c) = inr c

abbrev pub unless_invalid {ℓ} : {A : Type ℓ} → Option Error → Error ⊎ A → Error ⊎ A
unless_invalid (some e) r = inl e
unless_invalid none r = r

abbrev pub matched : Option Canonical.Error → Option Error → Option Error
matched (some e) next = some (not_matched e)
matched none next = next

module _ (ext : External) where
  unfoldable pub check_fields : ℕ → Event → Option Error
  unfolding lacks_required parse_rfc3339_strict
  check_fields i e =
      if lacks_required e
      then some (missing_fields i)
      else if is_some (parse_rfc3339_strict ext (norm_collapse e.ts))
      then none
      else some (invalid_ts i)

  -- The first loop, at the index `i` with the keys seen before.
  unfoldable pub check_all : Bool → Text → ℕ → List Text → List Event → Option Error
  unfolding check_tenant check_fields contains duplicate_key
  check_all enforce tid i seen [] = none
  check_all enforce tid i seen (e ∷ es) = first_error (check_tenant enforce tid i e) (
      first_error (check_fields i e) (
        first_error
          (if contains (duplicate_key e) seen
            then some (duplicate (norm_collapse e.tenant_id) (norm_collapse e.event_id))
            else none)
          (check_all enforce tid (suc i) (duplicate_key e ∷ seen) es)))

  abbrev pub item_of : Event → Item
  item_of e =
      (or_zero_time (parse_rfc3339_strict ext (norm_collapse e.ts)), norm_collapse e.event_id)

  unfoldable pub check_monotonic : List Event → Option Error
  unfolding parse_rfc3339_strict sort_by item_before has_descent
  check_monotonic es =
      if has_descent (sort_by item_before (map item_of es)) then some not_monotonic else none

  unfoldable pub verify_some : VerifyOptions → Text → List Event → Option Error
  unfolding check_all check_monotonic
  verify_some o tid es =
      if exceeds (length es) o.max_events
      then some too_many
      else if o.enforce_tenant_id && is_empty tid
      then some tenant_required
      else first_error (check_all o.enforce_tenant_id tid 0 [] es)
          (if o.require_monotonic_ts then check_monotonic es else none)

  unfoldable pub verify_events : Text → List Event → VerifyOptions → Option Error
  unfolding normalize_verify_options verify_some
  verify_events tenant_id [] opts = some no_events
  verify_events tenant_id (e ∷ es) opts =
      verify_some (normalize_verify_options opts)
        (or_first_tenant (norm_collapse tenant_id) (e ∷ es)) (e ∷ es)

  unfoldable pub verify_ledger_snapshot : Text → List Event → VerifyOptions → Error ⊎ Chain
  unfolding verify_events build_chain
  verify_ledger_snapshot tenant_id es opts =
      unless_invalid (verify_events tenant_id es opts)
        (built (build_chain ext (or_first_tenant (norm_collapse tenant_id) es) es))

  unfoldable pub verify_matches : Text → Chain → List Event → VerifyOptions → Option Error
  unfolding verify_chain normalize_verify_options
  verify_matches tid chain es opts =
      if is_empty tid
      then some tenant_required
      else matched (verify_chain ext chain es) (
          if (normalize_verify_options opts).enforce_tenant_id
            && not (text_eq (norm_collapse chain.tenant_id) tid)
          then some chain_tenant_mismatch
          else none)

  unfoldable pub verify_chain_matches : Text → Chain → List Event → VerifyOptions → Option Error
  unfolding verify_events verify_matches
  verify_chain_matches tenant_id chain es opts = first_error (verify_events tenant_id es opts) (
      verify_matches
        (or_first_tenant (first_non_empty (norm_collapse tenant_id) (norm_collapse chain.tenant_id))
          es)
        chain es opts)
