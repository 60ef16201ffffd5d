-- ===== src/Scheduler.antt =====
-- Scheduling policies, services/orchestrator/internal/scheduler/policies.go. A time is a number of
-- seconds from 1970. Fields of the limiter and key types that stand in comments are read as declared.
pub mod Limiter
mod Tests
use chartly.Prelude.{
  ℕ, zero, suc, ◌+◌, ◌-◌, ◌*◌, ◌/◌, ◌%◌, ◌^◌, Bool, true, false, not, ◌&&◌, ◌||◌, Option, none,
  some, List, [], ◌∷◌, ◌++◌, if◌then◌else◌, ltb, leb, ◌==◌, all,
}
use chartly.Prelude.Int.{ℤ, pos, negsuc}
use chartly.Dict.{is_some}
use chartly.Text.{Text, lit, is_empty, text_eq, trim_space, to_lower, split}

pub record QuietHours : Type 0 where
  pub enabled : Bool
  pub timezone : Text
  pub start_hhmm : Text
  pub end_hhmm : Text
  pub mode : Text

pub record Policy : Type 0 where
  pub enabled : Bool
  pub max_triggers_per_minute : ℤ
  pub max_triggers_per_job_per_hour : ℤ
  pub allow_job_types : List Text
  pub deny_tenants : List Text
  pub allow_tenants : List Text
  pub quiet_hours : QuietHours

pub data Reason : Type 0 where
  policy_disabled missing_tenant tenant_denied tenant_not_allowed job_type_not_allowed : Reason
  quiet_hours_deny outside_quiet_hours quiet_hours_allow quiet_hours_mode_invalid : Reason
  rate_limited_minute rate_limited_job_hour allowed : Reason

-- `quiet` is the tag quiet_hours.
pub record Decision : Type 0 where
  pub allow : Bool
  pub reason : Reason
  pub quiet : Bool

abbrev pub decision : Bool → Reason → Decision
decision allow reason = record { allow = allow; reason = reason; quiet = false }

unfoldable pub digits : ℕ → Text → Option ℕ
digits n [] = some n
digits n (c ∷ s) =
    let rest = digits (n * 10 + (c - b'0')) s in if leb b'0' c && leb c b'9' then rest else none

abbrev pub signed : Bool → Option ℕ → Option ℤ
signed minus none = none
signed false (some n) = if ltb n (2 ^ 63) then some (pos n) else none
signed true (some zero) = some (pos zero)
signed true (some (suc n)) = if ltb n (2 ^ 63) then some (negsuc n) else none

-- strconv.Atoi and ParseInt in base 10.
unfoldable pub atoi : Text → Option ℤ
unfolding digits
atoi [] = none
atoi (c ∷ s) =
    if c == b'-'
    then if is_empty s then none else signed true (digits 0 s)
    else if c == b'+'
    then if is_empty s then none else signed false (digits 0 s)
    else signed false (digits 0 (c ∷ s))

abbrev pub hhmm : Option ℤ → Option ℤ → Option ℕ
hhmm (some (pos h)) (some (pos m)) = if leb h 23 && leb m 59 then some (h * 60 + m) else none
hhmm _ _ = none

abbrev pub hhmm_parts : List Text → Option ℕ
hhmm_parts (h ∷ m ∷ []) = hhmm (atoi h) (atoi m)
hhmm_parts _ = none

unfoldable pub parse_hhmm : Text → Option ℕ
unfolding atoi split trim_space
parse_hhmm s = hhmm_parts (split b':' (trim_space s))

unfoldable pub is_in_window : ℕ → ℕ → ℕ → Bool
is_in_window minute start stop =
    if start == stop
    then true
    else if ltb start stop
    then leb start minute && ltb minute stop
    else leb start minute || ltb minute stop

-- strings.EqualFold with a trimmed name.
unfoldable pub contains_fold : Text → List Text → Bool
unfolding text_eq to_lower trim_space
contains_fold x [] = false
contains_fold x (t ∷ ts) = text_eq (to_lower (trim_space t)) (to_lower x) || contains_fold x ts

abbrev pub or_zero : Option ℕ → ℕ
or_zero none = 0
or_zero (some n) = n

-- What time.LoadLocation gives: the minute of the day at a time.
abbrev pub Zones : Type 0
Zones = Text → Option (ℕ → ℕ)

abbrev pub utc_minute : ℕ → ℕ
utc_minute now = now / 60 % 1440

abbrev pub minute_in : Option (ℕ → ℕ) → ℕ → ℕ
minute_in none now = utc_minute now
minute_in (some zone) now = zone now

abbrev pub local_minute : Zones → Text → ℕ → ℕ
local_minute zones tz now = if is_empty tz then utc_minute now else minute_in (zones tz) now

unfoldable pub quiet_hours_decision : Zones → QuietHours → ℕ → Decision
unfolding parse_hhmm is_in_window text_eq to_lower trim_space
quiet_hours_decision zones q now =
    let mode = to_lower (trim_space q.mode) in
    let in_quiet =
      is_in_window (local_minute zones (trim_space q.timezone) now)
        (or_zero (parse_hhmm q.start_hhmm)) (or_zero (parse_hhmm q.end_hhmm)) in
    if text_eq mode (lit "deny")
    then if in_quiet then decision false quiet_hours_deny else decision true outside_quiet_hours
    else if text_eq mode (lit "allow")
    then if in_quiet then decision true quiet_hours_allow else decision false outside_quiet_hours
    else decision false quiet_hours_mode_invalid

abbrev pub or_ingest : Text → Text
or_ingest [] = lit "ingest"
or_ingest (c ∷ s) = c ∷ s

abbrev pub has_some {ℓ} : {A : Type ℓ} → List A → Bool
has_some [] = false
has_some (x ∷ xs) = true

-- Decide of a policy that is not nil; of the job it reads the type only.
unfoldable pub decide : Zones → Policy → ℕ → Text → Text → Decision
unfolding contains_fold quiet_hours_decision trim_space
decide zones p now tenant_id job_type =
    let tenant = trim_space tenant_id in
    let quiet = quiet_hours_decision zones p.quiet_hours now in
    if not p.enabled
    then decision true policy_disabled
    else if is_empty tenant
    then decision false missing_tenant
    else if contains_fold tenant p.deny_tenants
    then decision false tenant_denied
    else if has_some p.allow_tenants && not (contains_fold tenant p.allow_tenants)
    then decision false tenant_not_allowed
    else if not (contains_fold (or_ingest (trim_space job_type)) p.allow_job_types)
    then decision false job_type_not_allowed
    else if p.quiet_hours.enabled && not quiet.allow
    then record quiet { quiet = true }
    else decision true allowed

-- DefaultPolicy
unfoldable pub default_policy : Policy
default_policy = record {
  enabled = true;
  max_triggers_per_minute = pos 60;
  max_triggers_per_job_per_hour = pos 12;
  allow_job_types = lit "ingest" ∷ [];
  deny_tenants = [];
  allow_tenants = [];
  quiet_hours = record {
    enabled = false;
    timezone = lit "America/Chicago";
    start_hhmm = lit "22:00";
    end_hhmm = lit "06:00";
    mode = lit "deny";
  };
}

-- The field that ErrPolicyInvalid names.
pub data Invalid : Type 0 where
  per_minute per_job_per_hour job_types_empty : Invalid
  bad_timezone bad_start bad_end bad_mode : Invalid

abbrev pub is_positive : ℤ → Bool
is_positive (pos zero) = false
is_positive (pos (suc n)) = true
is_positive (negsuc n) = false

abbrev pub known_mode : Text → Bool
known_mode mode = text_eq mode (lit "deny") || text_eq mode (lit "allow")

abbrev pub known_zone : Zones → Text → Bool
known_zone zones tz = not (is_empty (trim_space tz)) && is_some (zones tz)

-- The part of Validate for quiet hours that are enabled.
unfoldable pub validate_quiet : Zones → QuietHours → Option Invalid
unfolding parse_hhmm trim_space to_lower text_eq
validate_quiet zones q =
    if not (known_zone zones q.timezone)
    then some bad_timezone
    else if not (is_some (parse_hhmm q.start_hhmm))
    then some bad_start
    else if not (is_some (parse_hhmm q.end_hhmm))
    then some bad_end
    else if not (known_mode (to_lower (trim_space q.mode)))
    then some bad_mode
    else none

unfoldable pub validate : Zones → Policy → Option Invalid
unfolding validate_quiet
validate zones p =
    if not (is_positive p.max_triggers_per_minute)
    then some per_minute
    else if not (is_positive p.max_triggers_per_job_per_hour)
    then some per_job_per_hour
    else if not (has_some p.allow_job_types)
    then some job_types_empty
    else if p.quiet_hours.enabled
    then validate_quiet zones p.quiet_hours
    else none
