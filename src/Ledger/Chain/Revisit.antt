-- ===== src/Ledger/Chain/Revisit.antt =====
-- BuildChain of services/audit/internal/ledger/hash_chain.go on events whose maps are visited in another
-- order.
use chartly.Prelude.{◌≡◌, refl, ap, ◌∙◌, List, [], ◌∷◌, Bool-cases, Sum-cases, inl, inr}
use mathlib.Core.Path.{ap₂}
use chartly.Prelude.Sort.{place_by, sort_by}
use chartly.Text.{Text, is_empty}
use chartly.Ledger.{Event, norm_collapse}
use chartly.Ledger.Chain.{
  Link, Chain, External, or_first_tenant, if_none, first_error, check_event, check_events, before,
  sort_chain, hash_step, link_of, build_links, build_for, build_chain, genesis_prev_hash,
}
use chartly.Ledger.Chain.Canonical.{Result, ◌>>=◌, canonical_event_bytes}
use chartly.Ledger.Chain.Orders.{Revisited, AllRevisited, canonical_event_bytes-Revisited}

pub or_first_tenant-AllRevisited :
    (t : Text) (es es' : List Event)
    → AllRevisited es es'
    → or_first_tenant t es ≡ or_first_tenant t es'
or_first_tenant-AllRevisited [] [] [] r = refl
or_first_tenant-AllRevisited [] [] (e' ∷ es') r = elim r [ ]
or_first_tenant-AllRevisited [] (e ∷ es) [] r = elim r [ ]
or_first_tenant-AllRevisited [] (e ∷ es) (e' ∷ es') r =
    ap (λ x. norm_collapse x.tenant_id) r.0.fields
or_first_tenant-AllRevisited (c ∷ t) es es' r = refl

module _ (ext : External) where
  check_event-Revisited :
      (tid : Text) (e e' : Event) → Revisited e e' → check_event ext tid e ≡ check_event ext tid e'
  unfolding check_event
  check_event-Revisited tid e e' r = ap (check_event ext tid) r.fields

  check_events-AllRevisited :
      (tid : Text) (es es' : List Event)
      → AllRevisited es es'
      → check_events ext tid es ≡ check_events ext tid es'
  unfolding check_events
  check_events-AllRevisited tid [] [] r = refl
  check_events-AllRevisited tid [] (e' ∷ es') r = elim r [ ]
  check_events-AllRevisited tid (e ∷ es) [] r = elim r [ ]
  check_events-AllRevisited tid (e ∷ es) (e' ∷ es') r =
      ap₂ first_error (check_event-Revisited tid e e' r.0)
        (check_events-AllRevisited tid es es' r.1)

  before-Revisited :
      (a a' b b' : Event) → Revisited a a' → Revisited b b' → before ext a b ≡ before ext a' b'
  unfolding before
  before-Revisited a a' b b' r q = ap₂ (before ext) r.fields q.fields

  place_by-AllRevisited :
      (x x' : Event) (es es' : List Event)
      → Revisited x x'
      → AllRevisited es es'
      → AllRevisited (place_by (before ext) x es) (place_by (before ext) x' es')
  unfolding place_by
  place_by-AllRevisited x x' [] [] r rs = (r, tt)
  place_by-AllRevisited x x' [] (y' ∷ ys') r rs = elim rs [ ]
  place_by-AllRevisited x x' (y ∷ ys) [] r rs = elim rs [ ]
  place_by-AllRevisited x x' (y ∷ ys) (y' ∷ ys') r rs =
      let same = before-Revisited y y' x x' rs.0 r in
      elim (Bool-cases (before ext y' x')) [
        | inl e ↦ rw (same ∙ e, e) (rs.0, place_by-AllRevisited x x' ys ys' r rs.1)
        | inr n ↦ rw (same ∙ n, n) (r, rs)
      ]

  sort_by-AllRevisited :
      (es es' : List Event)
      → AllRevisited es es'
      → AllRevisited (sort_by (before ext) es) (sort_by (before ext) es')
  unfolding sort_by
  sort_by-AllRevisited [] [] r = tt
  sort_by-AllRevisited [] (e' ∷ es') r = elim r [ ]
  sort_by-AllRevisited (e ∷ es) [] r = elim r [ ]
  sort_by-AllRevisited (e ∷ es) (e' ∷ es') r =
      place_by-AllRevisited e e' (sort_by (before ext) es) (sort_by (before ext) es') r.0
        (sort_by-AllRevisited es es' r.1)

  linked : Text → Text → Event → Text → Result (Text × List Link) → Result (Text × List Link)
  linked tid prev e hash rest = rest >>= λ r. inr (r.0, link_of ext tid prev e hash ∷ r.1)

  build_links-AllRevisited :
      (tid prev : Text) (es es' : List Event)
      → AllRevisited es es'
      → build_links ext tid prev es ≡ build_links ext tid prev es'
  unfolding build_links linked
  build_links-AllRevisited tid prev [] [] r = refl
  build_links-AllRevisited tid prev [] (e' ∷ es') r = elim r [ ]
  build_links-AllRevisited tid prev (e ∷ es) [] r = elim r [ ]
  build_links-AllRevisited tid prev (e ∷ es) (e' ∷ es') r =
      let bytes = canonical_event_bytes-Revisited ext.format_float e e' r.0 in
      elim (Sum-cases (canonical_event_bytes ext.format_float e')) [
        | inl (error, bad) ↦ rw (bytes ∙ bad, bad) refl
        | inr (b, good) ↦
            rw (bytes ∙ good, good)
              (ap
                  (λ x.
                    linked tid prev x (hash_step ext prev b)
                      (build_links ext tid (hash_step ext prev b) es))
                  r.0.fields
                ∙ ap (linked tid prev e' (hash_step ext prev b))
                    (build_links-AllRevisited tid (hash_step ext prev b) es es' r.1))
      ]

  finished : Text → Result (Text × List Link) → Result Chain
  finished tid links = links >>= λ b. inr (record { tenant_id = tid; head = b.0; links = b.1 })

  build_for-AllRevisited :
      (tid : Text) (es es' : List Event)
      → AllRevisited es es'
      → build_for ext tid es ≡ build_for ext tid es'
  unfolding build_for sort_chain finished
  build_for-AllRevisited tid es es' r = elim (Bool-cases (is_empty tid)) [
    | inl none_given ↦ rw none_given refl
    | inr named ↦ rw named (
        ap₂ if_none (check_events-AllRevisited tid es es' r) (
          ap (finished tid) (
            build_links-AllRevisited tid genesis_prev_hash (sort_by (before ext) es)
              (sort_by (before ext) es') (sort_by-AllRevisited es es' r))))
  ]

  -- The order of the visits makes no difference to the chain.
  pub build_chain-AllRevisited :
      (t : Text) (es es' : List Event)
      → AllRevisited es es'
      → build_chain ext t es ≡ build_chain ext t es'
  unfolding build_chain
  build_chain-AllRevisited t [] [] r = refl
  build_chain-AllRevisited t [] (e' ∷ es') r = elim r [ ]
  build_chain-AllRevisited t (e ∷ es) [] r = elim r [ ]
  build_chain-AllRevisited t (e ∷ es) (e' ∷ es') r =
      ap (λ x. build_for ext x (e ∷ es))
        (or_first_tenant-AllRevisited (norm_collapse t) (e ∷ es) (e' ∷ es') r)
      ∙ build_for-AllRevisited (or_first_tenant (norm_collapse t) (e' ∷ es')) (e ∷ es) (e' ∷ es') r
