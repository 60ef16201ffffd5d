-- ===== src/Cache/Keys.antt =====
-- Which calls of Key share a cache key, services/storage/internal/cache/cache_policy.go.
use chartly.Prelude.{
  append-nil, ◌≡◌, refl, sym, ap, ◌∙◌, false, List, [], ◌∷◌, ◌++◌, inl, inr, arith, All, Bool-cases,
  Sum-cases,
}
use mathlib.Core.Path.{subst}
use chartly.Text.{Text, lit, is_empty, contains_byte, split}
use chartly.Text.Laws.{split-append, split_single}
use chartly.Ledger.{norm, norm_collapse}
use chartly.Cache.{normalize_parts, join_parts, key}

abbrev pub NoColon : Text → Type 0
NoColon s = contains_byte b':' s ≡ false

-- The fields of a joined text.
split-join_parts :
    (w : Text) (ps : List Text)
    → NoColon w
    → All NoColon ps
    → split b':' (w ++ join_parts ps) ≡ w ∷ ps
split-join_parts w [] h hs = ap (split b':') (append-nil w) ∙ split_single b':' w h
split-join_parts w (p ∷ ps) h hs =
    split-append b':' w (p ++ join_parts ps) h ∙ ap (λ xs. w ∷ xs) (split-join_parts p ps hs.0 hs.1)

normalize_parts-NoColon : (ps qs : List Text) → normalize_parts ps ≡ inr qs → All NoColon qs
unfolding normalize_parts
normalize_parts-NoColon [] qs h = subst (All NoColon) (let e : [] ≡ qs = cc in e) tt
normalize_parts-NoColon (p ∷ ps) qs h = elim (Bool-cases (is_empty (norm_collapse p))) [
  | inl empty ↦ normalize_parts-NoColon ps qs (ground (arith, h, empty))
  | inr full ↦ elim (Bool-cases (contains_byte b':' (norm_collapse p))) [
    | inl bad ↦ absurd (ground (arith, h, full, bad))
    | inr good ↦ elim (Sum-cases (normalize_parts ps)) [
      | inl (e, bad) ↦ absurd (ground (arith, h, full, good, bad))
      | inr (rest, made) ↦
          let same : norm_collapse p ∷ rest ≡ qs = ground (arith, h, full, good, made) in
          subst (All NoColon) same (good, normalize_parts-NoColon ps rest made)
    ]
  ]
]

-- The parts of a key that was built.
key_inv :
    (t k : Text) (ps : List Text) (s : Text)
    → key t k ps ≡ inr s
    → (qs : List Text) × (normalize_parts ps ≡ inr qs)
      × (s ≡ lit "chartly" ++ join_parts (norm t ∷ norm k ∷ qs))
unfolding key
key_inv t k ps s h = elim (Bool-cases (is_empty (norm t))) [
  | inl bad ↦ absurd (ground (arith, h, bad))
  | inr tenant ↦ elim (Bool-cases (is_empty (norm k))) [
    | inl bad ↦ absurd (ground (arith, h, tenant, bad))
    | inr kind ↦ elim (Sum-cases (normalize_parts ps)) [
      | inl (e, bad) ↦ absurd (ground (arith, h, tenant, kind, bad))
      | inr (qs, made) ↦ (qs, made, ground (arith, h, tenant, kind, made))
    ]
  ]
]

key-fields :
    (t k : Text) (ps : List Text) (s : Text)
    → NoColon (norm t)
    → NoColon (norm k)
    → key t k ps ≡ inr s
    → (qs : List Text) × (normalize_parts ps ≡ inr qs)
      × (split b':' s ≡ lit "chartly" ∷ norm t ∷ norm k ∷ qs)
key-fields t k ps s ht hk h =
    let (qs, made, same) = key_inv t k ps s h in
    (
      qs,
      made,
      ap (split b':') same
          ∙ split-join_parts (lit "chartly") (norm t ∷ norm k ∷ qs) (unfold contains_byte in refl)
              (ht, (hk, normalize_parts-NoColon ps qs made)),
    )

-- Where neither the tenants nor the kinds contain a colon, two calls of Key that give one key have the
-- same tenant, the same kind and the same parts, as they are normalised: no tenant reads what another
-- one cached.
pub key_separates :
    (t t' k k' : Text) (ps ps' : List Text) (s : Text)
    → NoColon (norm t)
    → NoColon (norm t')
    → NoColon (norm k)
    → NoColon (norm k')
    → key t k ps ≡ inr s
    → key t' k' ps' ≡ inr s
    → (norm t ≡ norm t') × (norm k ≡ norm k') × (normalize_parts ps ≡ normalize_parts ps')
key_separates t t' k k' ps ps' s ht ht' hk hk' h h' =
    let (qs, made, fields) = key-fields t k ps s ht hk h in
    let (qs', made', fields') = key-fields t' k' ps' s ht' hk' h' in
    let all_of : lit "chartly" ∷ norm t ∷ norm k ∷ qs ≡ lit "chartly" ∷ norm t' ∷ norm k' ∷ qs' =
      sym fields ∙ fields' in
    let same : qs ≡ qs' = cc in (cc, cc, made ∙ ap inr same ∙ sym made')
