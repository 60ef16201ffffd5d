-- ===== src/Ledger/Chain/Rebuild.antt =====
-- A chain that BuildChain of services/audit/internal/ledger/hash_chain.go returned, before
-- VerifyChain.
use chartly.Prelude.{
  ℕ, suc, ◌≡◌, refl, sym, ap, ◌∙◌, true, false, none, List, [], ◌∷◌, inl, inr, arith, length,
  ==-refl, Bool-cases, Option-cases, Sum-cases,
}
use chartly.Text.{Text, is_empty}
use chartly.Text.Laws.{text_eq_refl}
use chartly.Ledger.{Event, norm_collapse}
use chartly.Ledger.Collapse.{norm_collapse_idem}
use chartly.Ledger.Chain.Orders.{AllRevisited}
use chartly.Ledger.Chain.Revisit.{build_chain-AllRevisited}
use chartly.Ledger.Chain.{
  Link, Chain, External, or_first_tenant, check_events, sort_chain, build_links, build_for,
  build_chain, same_field, same_link, compare_links, compare_chains, verify_chain,
  genesis_prev_hash,
}

pub same_field_refl : (a : Text) → same_field a a ≡ true
unfolding same_field
same_field_refl a = text_eq_refl (norm_collapse a)

same_link_refl : (a : Link) → same_link a a ≡ true
unfolding same_link
same_link_refl a =
    rw
      (
        same_field_refl a.tenant_id,
        same_field_refl a.event_id,
        same_field_refl a.ts,
        same_field_refl a.prev_hash,
        same_field_refl a.hash,
      )
      refl

compare_links_refl : (i : ℕ) (ls : List Link) → compare_links i ls ls ≡ none
unfolding compare_links
compare_links_refl i [] = refl
compare_links_refl i (l ∷ ls) = rw (same_link_refl l) (compare_links_refl (suc i) ls)

compare_chains_refl : (c : Chain) → compare_chains c c ≡ none
unfolding compare_chains
compare_chains_refl c =
    rw (same_field_refl c.head) (rw (==-refl (length c.links)) (compare_links_refl 0 c.links))

or_first_tenant_id : (t : Text) (es : List Event) → is_empty t ≡ false → or_first_tenant t es ≡ t
or_first_tenant_id [] es h = cc
or_first_tenant_id (c ∷ t) es h = refl

-- The tenant of a chain is one that was collapsed.
pub or_first_tenant_collapsed :
    (t : Text) (es : List Event)
    → norm_collapse t ≡ t
    → norm_collapse (or_first_tenant t es) ≡ or_first_tenant t es
unfolding norm_collapse
or_first_tenant_collapsed [] [] h = h
or_first_tenant_collapsed [] (e ∷ es) h = norm_collapse_idem e.tenant_id
or_first_tenant_collapsed (c ∷ t) es h = h

module _ (ext : External) where
  build_for-tenant :
      (tid : Text) (es : List Event) (c : Chain)
      → build_for ext tid es ≡ inr c
      → (c.tenant_id ≡ tid) × (is_empty tid ≡ false)
  unfolding build_for
  build_for-tenant tid es c h = elim (Bool-cases (is_empty tid)) [
    | inl e ↦ absurd (ground (arith, h, e))
    | inr e ↦ elim (Option-cases (check_events ext tid es)) [
      | inr (x, bad) ↦ absurd (ground (arith, h, e, bad))
      | inl good ↦ elim (Sum-cases (build_links ext tid genesis_prev_hash (sort_chain ext es))) [
        | inl (x, bad) ↦ absurd (ground (arith, h, e, good, bad))
        | inr (b, built) ↦ (ground (arith, h, e, good, built), e)
      ]
    ]
  ]

  -- A chain is built with a tenant, which is the collapsed one, from some events.
  pub build_chain_inv :
      (t : Text) (es : List Event) (c : Chain)
      → build_chain ext t es ≡ inr c
      → (is_empty c.tenant_id ≡ false)
        × (norm_collapse c.tenant_id ≡ c.tenant_id)
        × (build_chain ext c.tenant_id es ≡ inr c)
        × (c.tenant_id ≡ or_first_tenant (norm_collapse t) es)
  unfolding build_chain
  build_chain_inv t [] c h = absurd (ground (arith, h))
  build_chain_inv t (e ∷ es) c h =
      let tid = or_first_tenant (norm_collapse t) (e ∷ es) in
      let (same, full) = build_for-tenant tid (e ∷ es) c h in
      let collapsed = or_first_tenant_collapsed (norm_collapse t) (e ∷ es) (norm_collapse_idem t) in
      (
        ap is_empty same ∙ full,
        ap norm_collapse same ∙ collapsed ∙ sym same,
        ap (λ x. build_for ext (or_first_tenant (norm_collapse x) (e ∷ es)) (e ∷ es)) same
            ∙ ap (λ x. build_for ext (or_first_tenant x (e ∷ es)) (e ∷ es)) collapsed
            ∙ ap (λ x. build_for ext x (e ∷ es)) (or_first_tenant_id tid (e ∷ es) full)
            ∙ h,
        same,
      )

  -- Every chain that BuildChain returns, whether the tenant was given or inferred, passes VerifyChain
  -- with the events that it was built from, in whatever orders the two calls visit the maps of the
  -- events, nested ones included: visits may differ by any exchanges of entries whose keys do not
  -- collapse to one.
  pub build_chain-verify_chain :
      (t : Text) (es es' : List Event) (c : Chain)
      → build_chain ext t es ≡ inr c
      → AllRevisited es es'
      → verify_chain ext c es' ≡ none
  unfolding verify_chain
  build_chain-verify_chain t es es' c h visits =
      let (full, collapsed, again, origin) = build_chain_inv t es c h in
      let rebuilt = sym (build_chain-AllRevisited ext c.tenant_id es es' visits) ∙ again in
      rw collapsed (rw full (rw rebuilt (compare_chains_refl c)))
