-- ===== src/Ledger/Chain/Canonical.antt =====
-- The canonical bytes of an event, services/audit/internal/ledger/hash_chain.go: the ordered
-- structures and what encoding/json makes of them, in one pass.
use chartly.Prelude.{ℕ, Bool, ◌||◌, List, [], ◌∷◌, ◌++◌, ◌⊎◌, inl, inr, if◌then◌else◌}
use chartly.Text.{Text, lit, is_empty}
use chartly.Text.Sort.{sort}
use chartly.Dict.{Dict, lookup, insert}
use chartly.Idempotency.Encode.{json_string, join_comma, braces}
use chartly.Ledger.{
  Event, Value, null, string, bool, float64, object, array, Entries, no_entry, entry, Values,
  no_value, value, norm_collapse, normalize_map,
}

-- Why a chain is not built, or does not match.
pub data Error : Type 0 where
  no_events tenant_required event_tenant_missing mixed_tenant id_ts_required invalid_ts : Error
  missing_fields json_failed : Error
  chain_tenant_required head_mismatch count_mismatch : Error
  link_mismatch : ℕ → Error

abbrev pub Result {ℓ} : Type ℓ → Type ℓ
Result A = Error ⊎ A

infixl 5 ◌>>=◌
abbrev pub ◌>>=◌ {ℓ κ} : {A : Type ℓ} {B : Type κ} → Result A → (A → Result B) → Result B
inl e >>= f = inl e
inr a >>= f = f a

abbrev pub brackets : List Text → Text
brackets ws = b'[' ∷ (join_comma ws ++ b']' ∷ [])

abbrev pub json_field : Text → Text → Text
json_field k v = json_string k ++ b':' ∷ v

-- A `canonicalKV` or `canonicalSKV`.
abbrev pub json_kv : Text → Text → Text
json_kv k v = braces (json_field (lit "k") (json_string k) ∷ json_field (lit "v") v ∷ [])

unfoldable pub json_kvs : Dict (Result Text) → Result (List Text)
unfolding json_string
json_kvs [] = inr []
json_kvs ((k, r) ∷ m) = do v ← r; rest ← json_kvs m; inr (json_kv k v ∷ rest)

unfoldable pub json_skvs : Dict Text → List Text
unfolding json_string
json_skvs [] = []
json_skvs ((k, v) ∷ m) = json_kv k (json_string v) ∷ json_skvs m

-- The list has the order in which this run visits the map; where keys collapse to one, the last of them
-- counts. Another run may visit it in another order, that is, it gets another list.
unfoldable pub canonical_string_map : Dict Text → List Text
unfolding json_skvs norm_collapse sort lookup insert
canonical_string_map m = json_skvs (normalize_map norm_collapse m)

-- The values stand under their keys as the results of their own canonicalisation, in the order of the
-- visit, which is of this run as well.
unfoldable pub canonical_any_map : Dict (Result Text) → Result (List Text)
unfolding json_kvs norm_collapse sort lookup insert
canonical_any_map es = json_kvs (normalize_map (λ r. r) es)

abbrev pub omit_empty : Text → Text → List Text
omit_empty k [] = []
omit_empty k (c ∷ v) = json_field k (json_string (c ∷ v)) ∷ []

abbrev pub omit_none : Text → List Text → List Text
omit_none k [] = []
omit_none k (w ∷ ws) = json_field k (brackets (w ∷ ws)) ∷ []

-- `format_float` writes a float64, given by its bits, as encoding/json does, or fails.
module _ (format_float : ℕ → Result Text) where
  -- canonicalizeAny; a map that is nil or empty is a nil slice.
  unfoldable mutual
    unfolding norm_collapse canonical_any_map json_string

    pub canonicalize_any : Value → Result Text
    canonicalize_any null = inr (lit "null")
    canonicalize_any (string s) = inr (json_string (norm_collapse s))
    canonicalize_any (bool b) = inr (if b then lit "true" else lit "false")
    canonicalize_any (float64 x) = format_float x
    canonicalize_any (object no_entry) = inr (lit "null")
    canonicalize_any (object (entry k v es)) =
        canonical_any_map ((k, canonicalize_any v) ∷ canonicalize_entries es) >>= λ ws.
        inr (brackets ws)
    canonicalize_any (array vs) = canonicalize_values vs >>= λ ws. inr (brackets ws)

    pub canonicalize_entries : Entries → Dict (Result Text)
    canonicalize_entries no_entry = []
    canonicalize_entries (entry k v es) = (k, canonicalize_any v) ∷ canonicalize_entries es

    pub canonicalize_values : Values → Result (List Text)
    canonicalize_values no_value = inr []
    canonicalize_values (value v vs) =
        canonicalize_any v >>= λ w. canonicalize_values vs >>= λ ws. inr (w ∷ ws)

  unfoldable pub canonicalize_detail : Dict Value → Dict (Result Text)
  unfolding canonicalize_any
  canonicalize_detail [] = []
  canonicalize_detail ((k, v) ∷ m) = (k, canonicalize_any v) ∷ canonicalize_detail m

  -- The fields of a `canonicalEvent`, in the order of the struct.
  unfoldable pub event_fields : Event → List Text → List Text → List Text
  unfolding norm_collapse json_string
  event_fields e meta detail =
      json_field (lit "tenant_id") (json_string (norm_collapse e.tenant_id))
        ∷ json_field (lit "event_id") (json_string (norm_collapse e.event_id))
        ∷ json_field (lit "ts") (json_string (norm_collapse e.ts))
        ∷ json_field (lit "action") (json_string (norm_collapse e.action))
        ∷ omit_empty (lit "object_key") (norm_collapse e.object_key)
      ++ omit_empty (lit "request_id") (norm_collapse e.request_id)
      ++ omit_empty (lit "actor_id") (norm_collapse e.actor_id)
      ++ omit_empty (lit "source") (norm_collapse e.source)
      ++ json_field (lit "outcome") (json_string (norm_collapse e.outcome))
        ∷ omit_none (lit "meta") meta
      ++ omit_none (lit "detail") detail

  unfoldable pub lacks_fields : Event → Bool
  unfolding norm_collapse
  lacks_fields e =
      is_empty (norm_collapse e.tenant_id)
      || (is_empty (norm_collapse e.event_id)
          || (is_empty (norm_collapse e.ts)
              || (is_empty (norm_collapse e.action) || is_empty (norm_collapse e.outcome))))

  unfoldable pub canonical_event_bytes : Event → Result Text
  unfolding event_fields lacks_fields canonical_string_map canonical_any_map canonicalize_detail
  canonical_event_bytes e =
      if lacks_fields e
      then inl missing_fields
      else (canonical_any_map (canonicalize_detail e.detail) >>= λ detail.
          inr (braces (event_fields e (canonical_string_map e.meta) detail)))
