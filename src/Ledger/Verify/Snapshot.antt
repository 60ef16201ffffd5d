-- ===== src/Ledger/Verify/Snapshot.antt =====
-- VerifyLedgerSnapshot against VerifyChainMatches, services/audit/internal/ledger/verification.go.
use chartly.Prelude.{
  suc, ◌≡◌, refl, map, length, All, sym, ap, ◌∙◌, true, false, ◌&&◌, none, some, List, [], ◌∷◌, inl,
  inr, arith, if◌then◌else◌, Option-cases, Sum-cases,
}
use chartly.Text.{Text, is_empty}
use chartly.Text.Laws.{text_eq_refl}
use chartly.Ledger.{Event, norm_collapse}
use chartly.Ledger.Collapse.{norm_collapse_idem}
use chartly.Ledger.Chain.{Chain, External, or_first_tenant, build_chain, verify_chain}
use chartly.Ledger.Chain.Rebuild.{
  build_chain_inv, build_chain-verify_chain, or_first_tenant_collapsed,
}
use chartly.Ledger.Chain.Orders.{plain, AllRevisited}
use chartly.Ledger.Chain.Revisit.{or_first_tenant-AllRevisited}
use chartly.Ledger.Verify.Accepted.{IsFit, IsAccepted, barred, tenant_of, verify_events_accepts}
use mathlib.Core.Path.{subst, ap₂}
use chartly.Text.Sort.{count}
use chartly.Ledger.Verify.{
  chain_tenant_mismatch, VerifyOptions, normalize_verify_options, first_non_empty, verify_events,
  verify_ledger_snapshot, verify_matches, verify_chain_matches,
}

-- The tenant that VerifyChainMatches looks for is that of the chain.
first_tenant :
    (t c : Text) (es : List Event)
    → is_empty c ≡ false
    → c ≡ or_first_tenant (or_first_tenant t es) es
    → or_first_tenant (first_non_empty t c) es ≡ c
first_tenant [] [] es h e = cc
first_tenant [] (x ∷ c) es h e = refl
first_tenant (x ∷ t) c es h e = sym e

module _ (ext : External) where
  -- The parts of a snapshot that was returned.
  snapshot_inv :
      (t : Text) (es : List Event) (o : VerifyOptions) (c : Chain)
      → verify_ledger_snapshot ext t es o ≡ inr c
      → (verify_events ext t es o ≡ none)
        × (build_chain ext (or_first_tenant (norm_collapse t) es) es ≡ inr c)
  unfolding verify_ledger_snapshot
  snapshot_inv t es o c h = elim (Option-cases (verify_events ext t es o)) [
    | inr (x, bad) ↦ absurd (ground (arith, h, bad))
    | inl good ↦ elim (Sum-cases (build_chain ext (or_first_tenant (norm_collapse t) es) es)) [
      | inl (x, bad) ↦ absurd (ground (arith, h, good, bad))
      | inr (d, made) ↦
          let same : d ≡ c = ground (arith, h, good, made) in (good, made ∙ ap inr same)
    ]
  ]

  IsFit-plain :
      (o : VerifyOptions) (tid : Text) (e : Event) → IsFit ext o tid e → IsFit ext o tid (plain e)
  IsFit-plain o tid e fit = record {
    same_tenant = fit.same_tenant;
    some_id = fit.some_id;
    some_ts = fit.some_ts;
    some_action = fit.some_action;
    some_outcome = fit.some_outcome;
    timed = fit.timed;
  }

  plain-IsFit :
      (o : VerifyOptions) (tid : Text) (e : Event) → IsFit ext o tid (plain e) → IsFit ext o tid e
  plain-IsFit o tid e fit = record {
    same_tenant = fit.same_tenant;
    some_id = fit.some_id;
    some_ts = fit.some_ts;
    some_action = fit.some_action;
    some_outcome = fit.some_outcome;
    timed = fit.timed;
  }

  All-IsFit-AllRevisited :
      (o : VerifyOptions) (tid : Text) (es es' : List Event)
      → AllRevisited es es'
      → All (IsFit ext o tid) es
      → All (IsFit ext o tid) es'
  All-IsFit-AllRevisited o tid [] [] r fits = tt
  All-IsFit-AllRevisited o tid [] (e' ∷ es') r fits = elim r [ ]
  All-IsFit-AllRevisited o tid (e ∷ es) [] r fits = elim r [ ]
  All-IsFit-AllRevisited o tid (e ∷ es) (e' ∷ es') r fits = (
    plain-IsFit o tid e' (subst (IsFit ext o tid) r.0.fields (IsFit-plain o tid e fits.0)),
    All-IsFit-AllRevisited o tid es es' r.1 fits.1,
  )

  map-barred-AllRevisited :
      (es es' : List Event) → AllRevisited es es' → map barred es ≡ map barred es'
  map-barred-AllRevisited [] [] r = refl
  map-barred-AllRevisited [] (e' ∷ es') r = elim r [ ]
  map-barred-AllRevisited (e ∷ es) [] r = elim r [ ]
  map-barred-AllRevisited (e ∷ es) (e' ∷ es') r =
      ap₂ ◌∷◌ (ap barred r.0.fields) (map-barred-AllRevisited es es' r.1)

  length-AllRevisited : (es es' : List Event) → AllRevisited es es' → length es ≡ length es'
  length-AllRevisited [] [] r = refl
  length-AllRevisited [] (e' ∷ es') r = elim r [ ]
  length-AllRevisited (e ∷ es) [] r = elim r [ ]
  length-AllRevisited (e ∷ es) (e' ∷ es') r = ap suc (length-AllRevisited es es' r.1)

  tenant_of-AllRevisited :
      (t : Text) (es es' : List Event) → AllRevisited es es' → tenant_of t es ≡ tenant_of t es'
  tenant_of-AllRevisited t [] [] r = refl
  tenant_of-AllRevisited t [] (e' ∷ es') r = elim r [ ]
  tenant_of-AllRevisited t (e ∷ es) [] r = elim r [ ]
  tenant_of-AllRevisited t (e ∷ es) (e' ∷ es') r =
      ap (λ x. if is_empty (norm_collapse t) then norm_collapse x.tenant_id else norm_collapse t)
        r.0.fields

  verify_events-AllRevisited :
      (t : Text) (es es' : List Event) (o : VerifyOptions)
      → AllRevisited es es'
      → verify_events ext t es o ≡ none
      → verify_events ext t es' o ≡ none
  verify_events-AllRevisited t es es' o r h =
      let a = (verify_events_accepts ext t es o).0 h in
      let same = tenant_of-AllRevisited t es es' r in
      let b : IsAccepted ext o (tenant_of t es) es' = record {
        some_event = omega (arith, a.some_event, length-AllRevisited es es' r);
        few = omega (arith, a.few, length-AllRevisited es es' r);
        named = a.named;
        fit = All-IsFit-AllRevisited o (tenant_of t es) es es' r a.fit;
        distinct =
            λ k. omega (arith, a.distinct k, ap (count k) (map-barred-AllRevisited es es' r));
      } in
      (verify_events_accepts ext t es' o).1 (subst (λ x. IsAccepted ext o x es') same b)

  verify_matches-none :
      (tid : Text) (c : Chain) (es : List Event) (o : VerifyOptions)
      → is_empty tid ≡ false
      → norm_collapse c.tenant_id ≡ tid
      → verify_chain ext c es ≡ none
      → verify_matches ext tid c es o ≡ none
  unfolding verify_matches
  verify_matches-none tid c es o full same verified = rw full (
      rw verified (
        rw same (
          rw (text_eq_refl tid)
            (elim (normalize_verify_options o).enforce_tenant_id
              as (λ b. (if b && false then some chain_tenant_mismatch else none) ≡ none) [
                | true ↦ refl
                | false ↦ refl
              ]))))

  -- A chain that VerifyLedgerSnapshot returned passes VerifyChainMatches with the same tenant, events
  -- and options, whether the tenant was given or inferred from the events, in whatever orders the two
  -- calls visit the maps of the events: visits may differ by any exchanges of entries whose keys do not
  -- collapse to one.
  pub snapshot_matches :
      (t : Text) (es es' : List Event) (o : VerifyOptions) (c : Chain)
      → verify_ledger_snapshot ext t es o ≡ inr c
      → AllRevisited es es'
      → verify_chain_matches ext t c es' o ≡ none
  unfolding verify_chain_matches
  snapshot_matches t es es' o c h visits =
      let (valid, made) = snapshot_inv t es o c h in
      let valid' = verify_events-AllRevisited t es es' o visits valid in
      let tid = or_first_tenant (norm_collapse t) es in
      let (full, collapsed, again, origin) = build_chain_inv ext tid es c made in
      let once = or_first_tenant_collapsed (norm_collapse t) es (norm_collapse_idem t) in
      let given = or_first_tenant-AllRevisited (norm_collapse t) es es' visits in
      let found = first_tenant (norm_collapse t) c.tenant_id es' full (
        origin
        ∙ ap (λ x. or_first_tenant x es) once
        ∙ or_first_tenant-AllRevisited tid es es' visits
        ∙ ap (λ x. or_first_tenant x es') given) in
      rw valid' (
        ap
          (λ x.
            verify_matches ext (or_first_tenant (first_non_empty (norm_collapse t) x) es') c es' o)
          collapsed
        ∙ ap (λ x. verify_matches ext x c es' o) found
        ∙ verify_matches-none c.tenant_id c es' o full collapsed
            (build_chain-verify_chain ext tid es es' c made visits))
