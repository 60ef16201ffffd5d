-- ===== src/Ledger/Chain/Orders.antt =====
-- Events whose maps are visited in another order, services/audit/internal/ledger/hash_chain.go: their
-- canonical bytes, and the chains built of them.
use chartly.Prelude.{
  ℕ, suc, ◌≡◌, ◌≢◌, refl, sym, ap, ◌∙◌, List, [], ◌∷◌, arith, if◌then◌else◌, length, inl, inr,
}
use mathlib.Core.Path.{subst, ap₂}
use chartly.Text.{Text, lit}
use chartly.Dict.{Dict}
use chartly.Ledger.{
  Event, Value, object, array, Entries, no_entry, entry, Values, no_value, value, norm_collapse,
}
use chartly.Ledger.Visits.{Visits, normalize_map-Visits}
use chartly.Idempotency.Encode.{braces}
use chartly.Ledger.Chain.Canonical.{
  missing_fields, Result, ◌>>=◌, brackets, json_kvs, json_skvs, canonical_string_map,
  canonical_any_map, canonicalize_any, canonicalize_entries, canonicalize_values,
  canonicalize_detail, lacks_fields, event_fields, canonical_event_bytes,
}

length-Visits : {m m' : Dict (Result Text)} → Visits m m' → length m ≡ length m'
length-Visits Visits.nil = refl
length-Visits (Visits.cons k v o) = ap suc (length-Visits o)
length-Visits (Visits.swap k j v w m differ) = refl
length-Visits (Visits.trans o o') = length-Visits o ∙ length-Visits o'

-- A value with its maps visited in another order, of the entries whose keys do not collapse to one.
mutual
  pub data SameValue : Value → Value → Type 0 where
    same : (v : Value) → SameValue v v
    same_object : {es es' : Entries} → SameEntries es es' → SameValue (object es) (object es')
    same_array : {vs vs' : Values} → SameValues vs vs' → SameValue (array vs) (array vs')

  pub data SameEntries : Entries → Entries → Type 0 where
    no_entries : SameEntries no_entry no_entry
    same_entry :
        (k : Text) {v v' : Value} {es es' : Entries}
        → SameValue v v'
        → SameEntries es es'
        → SameEntries (entry k v es) (entry k v' es')
    swap_entries :
        (k j : Text) (v w : Value) (es : Entries)
        → norm_collapse k ≢ norm_collapse j
        → SameEntries (entry k v (entry j w es)) (entry j w (entry k v es))
    through :
        {es es' es'' : Entries} → SameEntries es es' → SameEntries es' es'' → SameEntries es es''

  pub data SameValues : Values → Values → Type 0 where
    no_values : SameValues no_value no_value
    same_element :
        {v v' : Value} {vs vs' : Values}
        → SameValue v v'
        → SameValues vs vs'
        → SameValues (value v vs) (value v' vs')

module _ (format_float : ℕ → Result Text) where
  canonical_object : Dict (Result Text) → Result Text
  canonical_object [] = inr (lit "null")
  canonical_object (e ∷ es) = canonical_any_map (e ∷ es) >>= λ ws. inr (brackets ws)

  canonicalize_any-object :
      (es : Entries)
      → canonicalize_any format_float (object es)
        ≡ canonical_object (canonicalize_entries format_float es)
  unfolding canonicalize_any canonical_object
  canonicalize_any-object no_entry = refl
  canonicalize_any-object (entry k v es) = refl

  cons_same :
      (k : Text) (r r' : Result Text) (m m' : Dict (Result Text))
      → r ≡ r'
      → Visits m m'
      → Visits ((k, r) ∷ m) ((k, r') ∷ m')
  cons_same k r r' m m' e o = subst (λ x. Visits ((k, r) ∷ m) ((k, x) ∷ m')) e (Visits.cons k r o)

  canonical_any_map-Visits :
      {m m' : Dict (Result Text)} → Visits m m' → canonical_any_map m ≡ canonical_any_map m'
  unfolding canonical_any_map
  canonical_any_map-Visits o = ap json_kvs (normalize_map-Visits (λ r. r) o)

  canonical_object-Visits :
      (m m' : Dict (Result Text)) → Visits m m' → canonical_object m ≡ canonical_object m'
  unfolding canonical_object
  canonical_object-Visits [] [] o = refl
  canonical_object-Visits [] (e ∷ es) o = absurd (omega (arith, length-Visits o))
  canonical_object-Visits (e ∷ es) [] o = absurd (omega (arith, length-Visits o))
  canonical_object-Visits (e ∷ es) (e' ∷ es') o =
      ap (λ r. r >>= λ ws. inr (brackets ws)) (canonical_any_map-Visits o)

  mutual
    unfolding canonicalize_any

    canonicalize_any-SameValue :
        {v v' : Value}
        → SameValue v v'
        → canonicalize_any format_float v ≡ canonicalize_any format_float v'
    canonicalize_any-SameValue (same v) = refl
    canonicalize_any-SameValue (same_object {es} {es'} s) =
        canonicalize_any-object es
        ∙ canonical_object-Visits (canonicalize_entries format_float es)
            (canonicalize_entries format_float es') (canonicalize_entries-SameEntries s)
        ∙ sym (canonicalize_any-object es')
    canonicalize_any-SameValue (same_array s) =
        ap (λ r. r >>= λ ws. inr (brackets ws)) (canonicalize_values-SameValues s)

    canonicalize_entries-SameEntries :
        {es es' : Entries}
        → SameEntries es es'
        → Visits (canonicalize_entries format_float es) (canonicalize_entries format_float es')
    canonicalize_entries-SameEntries no_entries = Visits.nil
    canonicalize_entries-SameEntries (same_entry k s o) =
        cons_same k _ _ _ _ (canonicalize_any-SameValue s) (canonicalize_entries-SameEntries o)
    canonicalize_entries-SameEntries (swap_entries k j v w es differ) = Visits.swap k j _ _ _ differ
    canonicalize_entries-SameEntries (through o o') =
        Visits.trans (canonicalize_entries-SameEntries o) (canonicalize_entries-SameEntries o')

    canonicalize_values-SameValues :
        {vs vs' : Values}
        → SameValues vs vs'
        → canonicalize_values format_float vs ≡ canonicalize_values format_float vs'
    canonicalize_values-SameValues no_values = refl
    canonicalize_values-SameValues (same_element s o) =
        ap₂ (λ r rest. r >>= λ w. rest >>= λ ws. inr (w ∷ ws)) (canonicalize_any-SameValue s)
          (canonicalize_values-SameValues o)

-- The detail of an event, likewise.
pub data SameDetail : Dict Value → Dict Value → Type 0 where
  no_detail : SameDetail [] []
  related_field :
      (k : Text) {v v' : Value} {m m' : Dict Value}
      → SameValue v v'
      → SameDetail m m'
      → SameDetail ((k, v) ∷ m) ((k, v') ∷ m')
  swap_fields :
      (k j : Text) (v w : Value) (m : Dict Value)
      → norm_collapse k ≢ norm_collapse j
      → SameDetail ((k, v) ∷ (j, w) ∷ m) ((j, w) ∷ (k, v) ∷ m)
  passing : {m m' m'' : Dict Value} → SameDetail m m' → SameDetail m' m'' → SameDetail m m''

-- The fields of an event that are no maps.
abbrev pub plain : Event → Event
plain e = record e { detail = []; meta = [] }

-- An event with its maps visited in another order, of the entries whose keys do not collapse to one.
pub record Revisited (e e' : Event) : Type 0 where
  pub fields : plain e ≡ plain e'
  pub detail : SameDetail e.detail e'.detail
  pub meta : Visits e.meta e'.meta

abbrev pub AllRevisited : List Event → List Event → Type 0
AllRevisited [] [] = Unit
AllRevisited (e ∷ es) (e' ∷ es') = Revisited e e' × AllRevisited es es'
AllRevisited _ _ = ⊥

canonical_string_map-Visits :
    {m m' : Dict Text} → Visits m m' → canonical_string_map m ≡ canonical_string_map m'
unfolding canonical_string_map
canonical_string_map-Visits o = ap json_skvs (normalize_map-Visits norm_collapse o)

module _ (format_float : ℕ → Result Text) where
  canonicalize_detail-SameDetail :
      {m m' : Dict Value}
      → SameDetail m m'
      → Visits (canonicalize_detail format_float m) (canonicalize_detail format_float m')
  unfolding canonicalize_detail
  canonicalize_detail-SameDetail no_detail = Visits.nil
  canonicalize_detail-SameDetail (related_field k s o) =
      cons_same format_float k _ _ _ _ (canonicalize_any-SameValue format_float s)
        (canonicalize_detail-SameDetail o)
  canonicalize_detail-SameDetail (swap_fields k j v w m differ) = Visits.swap k j _ _ _ differ
  canonicalize_detail-SameDetail (passing o o') =
      Visits.trans (canonicalize_detail-SameDetail o) (canonicalize_detail-SameDetail o')

  bytes_from : Event → List Text → Result (List Text) → Result Text
  bytes_from e meta details =
      if lacks_fields format_float e
      then inl missing_fields
      else (details >>= λ detail. inr (braces (event_fields format_float e meta detail)))

  -- Two runs over one event give the same canonical bytes, or both none, in whatever orders they visit
  -- its maps, those nested in its detail included, as long as the orders differ by exchanges of entries
  -- whose keys do not collapse to one.
  pub canonical_event_bytes-Revisited :
      (e e' : Event)
      → Revisited e e'
      → canonical_event_bytes format_float e ≡ canonical_event_bytes format_float e'
  unfolding canonical_event_bytes bytes_from lacks_fields event_fields
  canonical_event_bytes-Revisited e e' r =
      ap
        (λ x.
          bytes_from x (canonical_string_map e.meta)
            (canonical_any_map (canonicalize_detail format_float e.detail)))
        r.fields
      ∙ ap (λ x. bytes_from e' x (canonical_any_map (canonicalize_detail format_float e.detail)))
          (canonical_string_map-Visits r.meta)
      ∙ ap (λ x. bytes_from e' (canonical_string_map e'.meta) x)
          (canonical_any_map-Visits format_float (canonicalize_detail-SameDetail r.detail))
