-- ===== src/Cache.antt =====
-- The cache policy, services/storage/internal/cache/cache_policy.go. Durations are nanoseconds. AsMap
-- is a map for output and is left out.
pub mod Keys
mod Tests
use chartly.Prelude.{
  ℕ, zero, ◌*◌, ◌^◌, ◌≡◌, Bool, true, false, not, ◌&&◌, ◌||◌, Option, none, some, List, [], ◌∷◌,
  ◌++◌, map, ◌⊎◌, inl, inr, if◌then◌else◌, ltb,
}
use chartly.Prelude.Int.{ℤ, pos, negsuc, or_default}
use chartly.Prelude.Sort.{sort_by}
use chartly.Text.{Text, lit, is_empty, text_eq, text_lt, contains_byte, trim_space}
use chartly.Ledger.{norm, norm_collapse}

-- `Kind` is a string.
pub record Rule : Type 0 where
  pub kind : Text
  pub ttl : ℤ
  pub enabled : Bool
  pub max_bytes : ℤ
  pub notes : Text

pub record Policy : Type 0 where
  pub version : Text
  pub default_ttl : ℤ
  pub rules : List Rule

abbrev pub second : ℕ
second = 10 ^ 9

-- Below zero an int64 counts as 0.
abbrev pub at_least_zero : ℤ → ℕ
at_least_zero (pos n) = n
at_least_zero (negsuc n) = 0

-- `default_ttl` is positive wherever the policy calls it.
unfoldable pub normalize_rule : Rule → ℕ → Rule
unfolding norm norm_collapse
normalize_rule r default_ttl = record r {
  kind = norm r.kind;
  notes = norm_collapse r.notes;
  ttl = pos (or_default r.ttl default_ttl);
  max_bytes = pos (at_least_zero r.max_bytes);
}

abbrev pub or_v1 : Text → Text
or_v1 [] = lit "v1"
or_v1 (c ∷ s) = c ∷ s

abbrev pub settled_ttl : ℤ → ℕ
settled_ttl t = or_default t (30 * second)

abbrev pub normalize_rules : ℕ → List Rule → List Rule
normalize_rules ttl [] = []
normalize_rules ttl (r ∷ rs) = normalize_rule r ttl ∷ normalize_rules ttl rs

unfoldable pub normalize_policy : Policy → Policy
unfolding normalize_rule
normalize_policy p = record {
  version = or_v1 (norm p.version);
  default_ttl = pos (settled_ttl p.default_ttl);
  rules = normalize_rules (settled_ttl p.default_ttl) p.rules;
}

abbrev pub rule : Text → ℕ → ℕ → Text → Rule
rule kind ttl bytes notes = record {
  kind = kind;
  ttl = pos (ttl * second);
  enabled = true;
  max_bytes = pos bytes;
  notes = notes;
}

unfoldable pub default_policy : Policy
unfolding normalize_policy
default_policy = normalize_policy (record {
  version = lit "v1";
  default_ttl = pos (30 * second);
  rules =
      rule (lit "list") 5 0 (lit "list results are volatile; keep short")
      ∷ rule (lit "object_body") 30 (4 * 1024 * 1024) (lit "cache small bodies only")
      ∷ rule (lit "object_meta") 60 0 (lit "meta is cheap and useful")
      ∷ rule (lit "stats") 10 0 (lit "stats are frequent; keep short")
      ∷ [];
})

-- Numbers that are not negative, which those of normalised rules are.
abbrev pub greater : ℤ → ℤ → Bool
greater a b = ltb (at_least_zero b) (at_least_zero a)

-- The order of the rules that match: the times to live first, then enabled, notes and sizes.
unfoldable pub preferred : Rule → Rule → Bool
unfolding text_lt
preferred a b =
    if greater a.ttl b.ttl
    then true
    else if greater b.ttl a.ttl
    then false
    else if a.enabled && not b.enabled
    then true
    else if b.enabled && not a.enabled
    then false
    else if text_lt a.notes b.notes
    then true
    else if text_lt b.notes a.notes
    then false
    else greater a.max_bytes b.max_bytes

unfoldable pub matches : Text → ℕ → List Rule → List Rule
unfolding text_eq normalize_rule
matches kind ttl [] = []
matches kind ttl (r ∷ rs) =
    let rest = matches kind ttl rs in
    if text_eq r.kind kind then normalize_rule r ttl ∷ rest else rest

abbrev pub no_rule : Text → ℕ → Rule
no_rule kind ttl = record {
  kind = kind;
  ttl = pos ttl;
  enabled = false;
  max_bytes = pos 0;
  notes = lit "no rule";
}

abbrev pub first_or : Rule → List Rule → Rule
first_or none_there [] = none_there
first_or none_there (r ∷ rs) = r

unfoldable pub rule_for : Policy → Text → Rule
unfolding normalize_policy matches preferred sort_by
rule_for p kind =
    let ttl = settled_ttl p.default_ttl in
    first_or (no_rule kind ttl) (sort_by preferred (matches kind ttl (normalize_policy p).rules))

abbrev pub allowed : Rule → ℤ → Option ℕ
allowed r bytes =
    if not r.enabled
    then none
    else if ltb 0 (at_least_zero r.max_bytes) && greater bytes r.max_bytes
    then none
    else if ltb 0 (at_least_zero r.ttl)
    then some (at_least_zero r.ttl)
    else none

-- `none` for (0, false).
unfoldable pub admit : Policy → Text → ℤ → Option ℕ
unfolding rule_for
admit p kind bytes = allowed (rule_for p kind) bytes

pub data Error : Type 0 where
  tenant_required kind_required colon_in_part : Error

abbrev pub cons_part : Text → Error ⊎ List Text → Error ⊎ List Text
cons_part p (inl e) = inl e
cons_part p (inr ps) = inr (p ∷ ps)

unfoldable pub normalize_parts : List Text → Error ⊎ List Text
unfolding norm_collapse contains_byte
normalize_parts [] = inr []
normalize_parts (p ∷ ps) =
    let rest = normalize_parts ps in
    if is_empty (norm_collapse p)
    then rest
    else if contains_byte b':' (norm_collapse p)
    then inl colon_in_part
    else cons_part (norm_collapse p) rest

abbrev pub join_parts : List Text → Text
join_parts [] = []
join_parts (p ∷ ps) = b':' ∷ (p ++ join_parts ps)

abbrev pub key_of : Text → Text → Error ⊎ List Text → Error ⊎ Text
key_of t k (inl e) = inl e
key_of t k (inr ps) = inr (lit "chartly" ++ join_parts (t ∷ k ∷ ps))

unfoldable pub key : Text → Text → List Text → Error ⊎ Text
unfolding norm normalize_parts
key tenant_id kind parts =
    if is_empty (norm tenant_id)
    then inl tenant_required
    else if is_empty (norm kind)
    then inl kind_required
    else key_of (norm tenant_id) (norm kind) (normalize_parts parts)
