-- ===== src/Ledger/Chain/Tamper.antt =====
-- What a chain of services/audit/internal/ledger/hash_chain.go says of the events that it was
-- verified with.
use chartly.Prelude.{
  ℕ, suc, ◌/◌, ◌%◌, ◌≡◌, ◌≢◌, refl, sym, ap, ◌∙◌, true, none, List, [], ◌∷◌, ◌++◌, map, inl, inr,
  ◌⊎◌, arith, all, length, Bool-cases, Option-cases, Sum-cases,
}
use chartly.Text.{Text, text_eq, is_empty}
use chartly.Text.Laws.{text_eq_iff, text_eq_refl}
use chartly.Idempotency.Encode.{hex_digit, hex_encode}
use chartly.Ledger.{Event, norm_collapse}
use chartly.Ledger.Collapse.{solid, norm_collapse-word}
use chartly.Ledger.Chain.{
  Link, Chain, External, hash_input, hash_step, or_first_tenant, check_events, sort_chain,
  build_links, build_for, build_chain, same_field, same_link, compare_links, compare_chains,
  verify_chain, genesis_prev_hash,
}
use chartly.Ledger.Chain.Canonical.{Result, canonical_event_bytes}

-- Two inputs of the hash that differ and have one digest.
abbrev pub Collision : External → Type 0
Collision ext =
    (x : Text) × (y : Text) × (x ≢ y) × (hex_encode (ext.sha256 x) ≡ hex_encode (ext.sha256 y))

hex_digit-solid : (n : ℕ) → solid (hex_digit n) ≡ true
unfolding solid hex_digit
hex_digit-solid n = ground arith

hex_encode-solid : (bs : List ℕ) → all solid (hex_encode bs) ≡ true
unfolding hex_encode
hex_encode-solid [] = refl
hex_encode-solid (b ∷ bs) =
    ground (arith, hex_digit-solid (b / 16), hex_digit-solid (b % 16), hex_encode-solid bs)

append_cancel : (p a b : Text) → p ++ a ≡ p ++ b → a ≡ b
append_cancel [] a b h = h
append_cancel (c ∷ p) a b h = append_cancel p a b cc

hash_input-cancel : (prev a b : Text) → hash_input prev a ≡ hash_input prev b → a ≡ b
unfolding hash_input
hash_input-cancel prev a b h =
    let same : 10 ∷ a ≡ 10 ∷ b = append_cancel _ (10 ∷ a) (10 ∷ b) h in cc

-- The digests that verification compares.
abbrev digests : List Link → List Text
digests = map (λ l. norm_collapse l.hash)

same_link-hash : (a b : Link) → same_link a b ≡ true → norm_collapse a.hash ≡ norm_collapse b.hash
unfolding same_link same_field
same_link-hash a b h = (text_eq_iff (norm_collapse a.hash) (norm_collapse b.hash)).0 (ground arith)

compare_links-digests :
    (i : ℕ) (as' bs : List Link)
    → length as' ≡ length bs
    → compare_links i as' bs ≡ none
    → digests as' ≡ digests bs
unfolding compare_links
compare_links-digests i [] [] n h = refl
compare_links-digests i [] (b ∷ bs) n h = absurd (omega arith)
compare_links-digests i (a ∷ as') [] n h = absurd (omega arith)
compare_links-digests i (a ∷ as') (b ∷ bs) n h = elim (Bool-cases (same_link a b)) [
  | inr e ↦ absurd (ground (arith, h, e))
  | inl e ↦
      let rest = compare_links-digests (suc i) as' bs (omega arith) (ground (arith, h, e)) in
      let first = same_link-hash a b e in cc
]

compare_chains-digests :
    (c d : Chain) → compare_chains c d ≡ none → digests c.links ≡ digests d.links
unfolding compare_chains
compare_chains-digests c d h =
    compare_links-digests 0 c.links d.links (ground (arith, h)) (ground (arith, h))

module _ (ext : External) where
  abbrev pub bytes_of : List Event → List (Result Text)
  bytes_of = map (canonical_event_bytes ext.format_float)

  hash_step-digest : (prev b : Text) → norm_collapse (hash_step ext prev b) ≡ hash_step ext prev b
  unfolding hash_step
  hash_step-digest prev b =
      norm_collapse-word (hash_step ext prev b) (hex_encode-solid (ext.sha256 (hash_input prev b)))

  hash_step-Collision :
      (prev a b : Text) → hash_step ext prev a ≡ hash_step ext prev b → (a ≡ b) ⊎ Collision ext
  unfolding hash_step
  hash_step-Collision prev a b h = elim (Bool-cases (text_eq a b)) [
    | inl same ↦ inl ((text_eq_iff a b).0 same)
    | inr other ↦ inr (
      hash_input prev a,
      hash_input prev b,
      λ e. absurd (ground (arith, other, text_eq_refl b, hash_input-cancel prev a b e)),
      h,
    )
  ]

  -- One step of the last loop of BuildChain, taken apart.
  build_links_inv :
      (tid prev : Text) (e : Event) (es : List Event) (r : Text × List Link)
      → build_links ext tid prev (e ∷ es) ≡ inr r
      → (b : Text) × (rest : Text × List Link) × (canonical_event_bytes ext.format_float e ≡ inr b)
        × (build_links ext tid (hash_step ext prev b) es ≡ inr rest)
        × (digests r.1 ≡ hash_step ext prev b ∷ digests rest.1)
  unfolding build_links
  build_links_inv tid prev e es r h = elim (Sum-cases (canonical_event_bytes ext.format_float e)) [
    | inl (x, bad) ↦ absurd (ground (arith, h, bad))
    | inr (b, bytes) ↦ elim (Sum-cases (build_links ext tid (hash_step ext prev b) es)) [
      | inl (x, bad) ↦ absurd (ground (arith, h, bytes, bad))
      | inr (rest, built) ↦
          let whole : r ≡ (
            rest.0,
            record {
              tenant_id = tid;
              event_id = norm_collapse e.event_id;
              ts = norm_collapse e.ts;
              prev_hash = prev;
              hash = hash_step ext prev b;
            }
                ∷ rest.1,
          ) =
            ground (arith, h, bytes, built) in
          (
            b,
            rest,
            bytes,
            built,
            ap (λ (x : Text × List Link). digests x.1) whole
                ∙ ap (λ d. d ∷ digests rest.1) (hash_step-digest prev b),
          )
    ]
  ]

  build_links_fix :
      (t u prev : Text) (es es' : List Event) (r r' : Text × List Link)
      → build_links ext t prev es ≡ inr r
      → build_links ext u prev es' ≡ inr r'
      → digests r.1 ≡ digests r'.1
      → (bytes_of es ≡ bytes_of es') ⊎ Collision ext
  unfolding build_links
  build_links_fix t u prev [] [] r r' h h' d = inl refl
  build_links_fix t u prev [] (e ∷ es') r r' h h' d =
      let (b, rest, bytes, built, ds) = build_links_inv u prev e es' r' h' in
      let start : r ≡ (prev, []) = cc in
      absurd (
        let x : [] ≡ hash_step ext prev b ∷ digests rest.1 =
          ap (λ (x : Text × List Link). digests x.1) (sym start) ∙ d ∙ ds in
        cc)
  build_links_fix t u prev (e ∷ es) [] r r' h h' d =
      let (b, rest, bytes, built, ds) = build_links_inv t prev e es r h in
      let start : r' ≡ (prev, []) = cc in
      absurd (
        let x : hash_step ext prev b ∷ digests rest.1 ≡ [] =
          sym ds ∙ d ∙ ap (λ (x : Text × List Link). digests x.1) start in
        cc)
  build_links_fix t u prev (e ∷ es) (e' ∷ es') r r' h h' d =
      let (b, rest, bytes, built, ds) = build_links_inv t prev e es r h in
      let (b', rest', bytes', built', ds') = build_links_inv u prev e' es' r' h' in
      let all_same = sym ds ∙ d ∙ ds' in
      elim (hash_step-Collision prev b b' cc) [
        | inr found ↦ inr found
        | inl same ↦
            elim (build_links_fix t u (hash_step ext prev b) es es' rest rest' built
              (ap (λ x. build_links ext u (hash_step ext prev x) es') same ∙ built') cc) [
                | inr found ↦ inr found
                | inl others ↦ inl cc
              ]
      ]

  build_for-digests :
      (tid : Text) (es : List Event) (d : Chain)
      → build_for ext tid es ≡ inr d
      → (r : Text × List Link) × (build_links ext tid genesis_prev_hash (sort_chain ext es) ≡ inr r)
        × (d.links ≡ r.1)
  unfolding build_for
  build_for-digests tid es d h = elim (Bool-cases (is_empty tid)) [
    | inl e ↦ absurd (ground (arith, h, e))
    | inr e ↦ elim (Option-cases (check_events ext tid es)) [
      | inr (x, bad) ↦ absurd (ground (arith, h, e, bad))
      | inl good ↦ elim (Sum-cases (build_links ext tid genesis_prev_hash (sort_chain ext es))) [
        | inl (x, bad) ↦ absurd (ground (arith, h, e, good, bad))
        | inr (r, built) ↦ (r, built, ground (arith, h, e, good, built))
      ]
    ]
  ]

  build_chain-digests :
      (t : Text) (es : List Event) (d : Chain)
      → build_chain ext t es ≡ inr d
      → (tid : Text) × (r : Text × List Link) × (build_links ext tid genesis_prev_hash
            (sort_chain ext es)
          ≡ inr r)
        × (d.links ≡ r.1)
  unfolding build_chain
  build_chain-digests t [] d h = absurd (ground (arith, h))
  build_chain-digests t (e ∷ es) d h =
      let tid = or_first_tenant (norm_collapse t) (e ∷ es) in
      let (r, built, same) = build_for-digests tid (e ∷ es) d h in (tid, r, built, same)

  verify_chain-digests :
      (c : Chain) (es : List Event)
      → verify_chain ext c es ≡ none
      → (tid : Text) × (r : Text × List Link) × (build_links ext tid genesis_prev_hash
            (sort_chain ext es)
          ≡ inr r)
        × (digests c.links ≡ digests r.1)
  unfolding verify_chain
  verify_chain-digests c es h = elim (Bool-cases (is_empty (norm_collapse c.tenant_id))) [
    | inl e ↦ absurd (ground (arith, h, e))
    | inr e ↦ elim (Sum-cases (build_chain ext (norm_collapse c.tenant_id) es)) [
      | inl (x, bad) ↦ absurd (ground (arith, h, e, bad))
      | inr (d, built) ↦
          let (tid, r, links, same) = build_chain-digests (norm_collapse c.tenant_id) es d built in
          let matched : compare_chains c d ≡ none = ground (arith, h, e, built) in
          (tid, r, links, compare_chains-digests c d matched ∙ ap digests same)
    ]
  ]

  -- Two lists of events that pass VerifyChain with one chain have the same canonical bytes, event by
  -- event in the order of the chain, or two different inputs of SHA-256 with one digest are found.
  pub verify_chain-bytes :
      (c : Chain) (es es' : List Event)
      → verify_chain ext c es ≡ none
      → verify_chain ext c es' ≡ none
      → (bytes_of (sort_chain ext es) ≡ bytes_of (sort_chain ext es')) ⊎ Collision ext
  verify_chain-bytes c es es' h h' =
      let (t, r, built, ds) = verify_chain-digests c es h in
      let (u, r', built', ds') = verify_chain-digests c es' h' in
      build_links_fix t u genesis_prev_hash (sort_chain ext es) (sort_chain ext es') r r' built
        built' (sym ds ∙ ds')
