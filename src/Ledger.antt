-- ===== src/Ledger.antt =====
-- Audit events, and how the ledger normalises them: the second half of
-- services/audit/internal/ledger/append_only.go. The values of an event's detail are those that
-- encoding/json decodes; a float64 is its bit pattern. A nil map is an empty one. A map stands in
-- the order in which its loop visits it.
pub mod AppendOnly
pub mod Normal
pub mod Index
pub mod Evict
pub mod Append
pub mod Collapse
pub mod Visits
pub mod Chain
pub mod Verify
pub mod Listing
pub mod Ascending
pub mod Older
pub mod Oldest
mod Tests
use chartly.Prelude.{
  ℕ, ◌*◌, ◌≡◌, Bool, true, false, not, ◌||◌, Option, none, some, List, [], ◌∷◌, ◌++◌, map, ◌⊎◌, inl,
  inr, if◌then◌else◌, ◌==◌,
}
use chartly.Text.{Text, is_empty, is_space, trim_space, cons_head}
use chartly.Text.Sort.{sort}
use chartly.Dict.{Dict, lookup, insert, is_some}

mutual
  pub data Entries : Type 0 where
    no_entry : Entries
    entry : Text → Value → Entries → Entries

  pub data Values : Type 0 where
    no_value : Values
    value : Value → Values → Values

  pub data Value : Type 0 where
    null : Value
    string : Text → Value
    bool : Bool → Value
    float64 : ℕ → Value
    object : Entries → Value
    array : Values → Value

pub record Event : Type 0 where
  pub tenant_id : Text
  pub event_id : Text
  pub ts : Text
  pub action : Text
  pub object_key : Text
  pub request_id : Text
  pub actor_id : Text
  pub source : Text
  pub outcome : Text
  pub detail : Dict Value
  pub meta : Dict Text

unfoldable pub drop_nul : Text → Text
drop_nul [] = []
drop_nul (c ∷ s) = let rest = drop_nul s in if c == 0 then rest else c ∷ rest

unfoldable pub norm : Text → Text
unfolding drop_nul
norm s = drop_nul (trim_space s)

-- The pieces between the blanks, and strings.Fields, those that are not empty.
unfoldable pub pieces : Text → List Text
unfolding is_space
pieces [] = [] ∷ []
pieces (c ∷ s) = let rest = pieces s in if is_space c then [] ∷ rest else cons_head c rest

abbrev pub non_empty : List Text → List Text
non_empty [] = []
non_empty ([] ∷ ws) = non_empty ws
non_empty ((c ∷ w) ∷ ws) = (c ∷ w) ∷ non_empty ws

abbrev pub join_space : List Text → Text
join_space [] = []
join_space (w ∷ []) = w
join_space (w ∷ v ∷ ws) = w ++ b' ' ∷ join_space (v ∷ ws)

unfoldable pub norm_collapse : Text → Text
unfolding norm pieces
norm_collapse s = join_space (non_empty (pieces (norm s)))

unfoldable mutual
  unfolding norm_collapse

  pub deep_copy_any : Value → Value
  deep_copy_any null = null
  deep_copy_any (string s) = string (norm_collapse s)
  deep_copy_any (bool b) = bool b
  deep_copy_any (float64 x) = float64 x
  deep_copy_any (object es) = object (deep_copy_entries es)
  deep_copy_any (array vs) = array (deep_copy_values vs)

  deep_copy_entries : Entries → Entries
  deep_copy_entries no_entry = no_entry
  deep_copy_entries (entry k v es) = entry k (deep_copy_any v) (deep_copy_entries es)

  deep_copy_values : Values → Values
  deep_copy_values no_value = no_value
  deep_copy_values (value v vs) = value (deep_copy_any v) (deep_copy_values vs)

-- deepCopyAnyMap of an event's detail.
unfoldable pub deep_copy_any_map : Dict Value → Dict Value
unfolding deep_copy_any
deep_copy_any_map [] = []
deep_copy_any_map ((k, v) ∷ m) = (k, deep_copy_any v) ∷ deep_copy_any_map m

unfoldable pub deep_copy_event : Event → Event
unfolding deep_copy_any_map
deep_copy_event e = record e { detail = deep_copy_any_map e.detail }

module _ {ℓ} {V : Type ℓ} where
  -- The first loop of both map normalisers: a later entry replaces an earlier one under its key.
  abbrev pub collapse_keys : (V → V) → Dict V → Dict V → Dict V
  collapse_keys f [] tmp = tmp
  collapse_keys f ((k, v) ∷ m) tmp =
      collapse_keys f m
        (if is_empty (norm_collapse k) then tmp else insert (norm_collapse k) (f v) tmp)

  abbrev pub pick : Dict V → List Text → Dict V
  pick tmp [] = []
  pick tmp (k ∷ ks) = elim (lookup k tmp) [ none ↦ pick tmp ks | some v ↦ (k, v) ∷ pick tmp ks ]

  abbrev pub normalize_map : (V → V) → Dict V → Dict V
  normalize_map f m = let tmp = collapse_keys f m [] in pick tmp (sort (map (λ p. p.0) tmp))

unfoldable pub normalize_string_map : Dict Text → Dict Text
normalize_string_map m = normalize_map norm_collapse m

unfoldable pub normalize_any_map : Dict Value → Dict Value
normalize_any_map m = normalize_map deep_copy_any m

pub data Error : Type 0 where
  required_missing ts_missing ts_invalid tenant_missing since_invalid : Error

-- `parse_time` is time.Parse with the layout RFC3339Nano or else RFC3339, in nanoseconds from the day
-- before the year 0.
module _ (parse_time : Text → Option ℕ) where
  unfoldable pub parse_rfc3339 : Text → Option ℕ
  unfolding norm
  parse_rfc3339 s = if is_empty (norm s) then none else parse_time (norm s)

  abbrev pub norm_fields : Event → Event
  norm_fields e = record e {
    tenant_id = norm e.tenant_id;
    event_id = norm e.event_id;
    ts = norm e.ts;
    action = norm e.action;
    object_key = norm e.object_key;
    request_id = norm e.request_id;
    actor_id = norm e.actor_id;
    source = norm e.source;
    outcome = norm e.outcome;
  }

  unfoldable pub normalize_and_validate : Event → Error ⊎ Event
  unfolding parse_rfc3339 deep_copy_event normalize_string_map normalize_any_map
  normalize_and_validate e =
      let ev = norm_fields (deep_copy_event e) in
      if is_empty ev.tenant_id
        || (is_empty ev.event_id || (is_empty ev.action || is_empty ev.outcome))
      then inl required_missing
      else if is_empty ev.ts
      then inl ts_missing
      else if is_some (parse_rfc3339 ev.ts)
      then inr
          (record ev { detail = normalize_any_map ev.detail; meta = normalize_string_map ev.meta })
      else inl ts_invalid
