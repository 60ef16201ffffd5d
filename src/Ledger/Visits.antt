-- ===== src/Ledger/Visits.antt =====
-- Two runs over one map visit its entries in two orders. What the normalisation of the maps of an event
-- makes of them, services/audit/internal/ledger/append_only.go.
use chartly.Prelude.{
  suc, ◌≡◌, ◌≢◌, refl, sym, ap, ◌∙◌, true, false, Option, none, some, List, [], ◌∷◌, map, arith,
  if◌then◌else◌, Bool-cases, inl, inr,
}
use chartly.Text.{Text, is_empty, text_eq}
use chartly.Text.Laws.{text_eq_iff}
use chartly.Text.Sort.{sort, count}
use chartly.Text.Unique.{sort_unique}
use chartly.Dict.{Dict, lookup, insert, lookup-insert, insert-IsUnique, IsUnique, is_some}
use chartly.Ledger.{norm_collapse, collapse_keys, pick, normalize_map}

module _ {ℓ} {V : Type ℓ} where
  -- Entries change places whose keys do not collapse to one.
  pub data Visits : Dict V → Dict V → Type ℓ where
    nil : Visits [] []
    cons : (k : Text) (v : V) {m m' : Dict V} → Visits m m' → Visits ((k, v) ∷ m) ((k, v) ∷ m')
    swap :
        (k j : Text) (v w : V) (m : Dict V)
        → norm_collapse k ≢ norm_collapse j
        → Visits ((k, v) ∷ (j, w) ∷ m) ((j, w) ∷ (k, v) ∷ m)
    trans : {m m' m'' : Dict V} → Visits m m' → Visits m' m'' → Visits m m''

  -- The maps agree at every key.
  abbrev pub Agree : Dict V → Dict V → Type ℓ
  Agree d d' = (x : Text) → lookup x d ≡ lookup x d'

  put : Text → V → Dict V → Dict V
  put k v d = if is_empty (norm_collapse k) then d else insert (norm_collapse k) v d

  put-Agree : (k : Text) (v : V) (d d' : Dict V) → Agree d d' → Agree (put k v d) (put k v d')
  unfolding put
  put-Agree k v d d' a x = elim (Bool-cases (is_empty (norm_collapse k))) [
    | inl blank ↦ rw blank (a x)
    | inr full ↦ rw full (
        rw (lookup-insert (norm_collapse k) x v d, lookup-insert (norm_collapse k) x v d', a x)
          refl)
  ]

  lookup-put :
      (k x : Text) (v : V) (d : Dict V)
      → lookup x (put k v d) ≡ (
          if is_empty (norm_collapse k)
          then lookup x d
          else if text_eq (norm_collapse k) x
          then some v
          else lookup x d)
  unfolding put
  lookup-put k x v d = elim (Bool-cases (is_empty (norm_collapse k))) [
    | inl blank ↦ rw blank refl
    | inr full ↦ rw full (lookup-insert (norm_collapse k) x v d)
  ]

  put_swap :
      (k j : Text) (v w : V) (d : Dict V)
      → norm_collapse k ≢ norm_collapse j
      → Agree (put j w (put k v d)) (put k v (put j w d))
  put_swap k j v w d differ x = elim (Bool-cases (text_eq (norm_collapse k) x)) [
    | inl at_k ↦
        let other : text_eq (norm_collapse j) x ≡ false =
          elim (Bool-cases (text_eq (norm_collapse j) x)) [
            | inr other ↦ other
            | inl same ↦ absurd (
                differ (
                  (text_eq_iff (norm_collapse k) x).0 at_k
                  ∙ sym ((text_eq_iff (norm_collapse j) x).0 same)))
          ] in
        rw
          (
            lookup-put j x w (put k v d),
            lookup-put k x v d,
            lookup-put k x v (put j w d),
            lookup-put j x w d,
            at_k,
            other,
          )
          (ground arith)
    | inr not_k ↦
        rw
          (
            lookup-put j x w (put k v d),
            lookup-put k x v d,
            lookup-put k x v (put j w d),
            lookup-put j x w d,
            not_k,
          )
          (ground arith)
  ]

  module _ (f : V → V) where
    collapse_keys-put :
        (k : Text) (v : V) (m tmp : Dict V)
        → collapse_keys f ((k, v) ∷ m) tmp ≡ collapse_keys f m (put k (f v) tmp)
    unfolding put
    collapse_keys-put k v m tmp = refl

    collapse_keys-Agree :
        (m tmp tmp' : Dict V)
        → Agree tmp tmp'
        → Agree (collapse_keys f m tmp) (collapse_keys f m tmp')
    unfolding put
    collapse_keys-Agree [] tmp tmp' a = a
    collapse_keys-Agree ((k, v) ∷ m) tmp tmp' a =
        collapse_keys-Agree m (put k (f v) tmp) (put k (f v) tmp') (put-Agree k (f v) tmp tmp' a)

    collapse_keys-Visits :
        {m m' : Dict V} (tmp : Dict V)
        → Visits m m'
        → Agree (collapse_keys f m tmp) (collapse_keys f m' tmp)
    unfolding put
    collapse_keys-Visits tmp nil = λ x. refl
    collapse_keys-Visits tmp (cons k v o) = collapse_keys-Visits (put k (f v) tmp) o
    collapse_keys-Visits tmp (swap k j v w m differ) =
        collapse_keys-Agree m (put j (f w) (put k (f v) tmp)) (put k (f v) (put j (f w) tmp))
          (put_swap k j (f v) (f w) tmp differ)
    collapse_keys-Visits tmp (trans o o') =
        λ x. collapse_keys-Visits tmp o x ∙ collapse_keys-Visits tmp o' x

    collapse_keys-IsUnique : (m tmp : Dict V) → IsUnique tmp → IsUnique (collapse_keys f m tmp)
    collapse_keys-IsUnique [] tmp u = u
    collapse_keys-IsUnique ((k, v) ∷ m) tmp u =
        collapse_keys-IsUnique m
          (if is_empty (norm_collapse k) then tmp else insert (norm_collapse k) (f v) tmp)
          (elim (is_empty (norm_collapse k))
            as (λ b. IsUnique (if b then tmp else insert (norm_collapse k) (f v) tmp)) [
              | true ↦ u
              | false ↦ insert-IsUnique (norm_collapse k) (f v) tmp u
            ])

  count-keys :
      (x : Text) (d : Dict V)
      → IsUnique d
      → count x (map (λ p. p.0) d) ≡ (if is_some (lookup x d) then 1 else 0)
  unfolding count lookup
  count-keys x [] u = refl
  count-keys x ((k, v) ∷ d) u = elim (Bool-cases (text_eq k x)) [
    | inl here ↦
        let gone : lookup x d ≡ none =
          ap (λ y. lookup y d) (sym ((text_eq_iff k x).0 here)) ∙ u.0 in
        let zero_times = count-keys x d u.1 ∙ ap (λ o. if is_some o then 1 else 0) gone in
        rw here (ap suc zero_times)
    | inr away ↦ rw away (count-keys x d u.1)
  ]

  pick-Agree : (d d' : Dict V) (ks : List Text) → Agree d d' → pick d ks ≡ pick d' ks
  pick-Agree d d' [] a = refl
  pick-Agree d d' (k ∷ ks) a =
      ap (next (pick d ks)) (a k) ∙ ap (λ r. next r (lookup k d')) (pick-Agree d d' ks a)
    where
      next : Dict V → Option V → Dict V
      next rest none = rest
      next rest (some v) = (k, v) ∷ rest

  -- A visit in another order of the entries whose keys do not collapse to one gives the same result.
  pub normalize_map-Visits :
      (f : V → V) {m m' : Dict V} → Visits m m' → normalize_map f m ≡ normalize_map f m'
  normalize_map-Visits f {m} {m'} o =
      let d = collapse_keys f m [] in
      let d' = collapse_keys f m' [] in
      let a = collapse_keys-Visits f [] o in
      let keys : sort (map (λ p. p.0) d) ≡ sort (map (λ p. p.0) d') =
        sort_unique (map (λ p. p.0) d) (map (λ p. p.0) d') (λ x.
          count-keys x d (collapse_keys-IsUnique f m [] tt)
          ∙ ap (λ o. if is_some o then 1 else 0) (a x)
          ∙ sym (count-keys x d' (collapse_keys-IsUnique f m' [] tt))) in
      pick-Agree d d' (sort (map (λ p. p.0) d)) a ∙ ap (pick d') keys
