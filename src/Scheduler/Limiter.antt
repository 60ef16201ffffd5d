-- ===== src/Scheduler/Limiter.antt =====
-- The limiter of services/orchestrator/internal/scheduler/policies.go.
pub mod Bounded
use chartly.Prelude.{
  ℕ, zero, suc, ◌+◌, ◌/◌, Bool, true, false, not, ◌&&◌, ◌||◌, Option, none, some, List, [], ◌∷◌,
  ◌++◌, if◌then◌else◌, ltb, leb, ◌==◌,
}
use chartly.Prelude.Int.{ℤ, pos, negsuc}
use chartly.Text.{Text, to_lower, split}
use chartly.Dict.{Dict, lookup, insert}
use chartly.Idempotency.Encode.{format_uint}
use chartly.Scheduler.{
  Policy, Reason, policy_disabled, rate_limited_minute, rate_limited_job_hour, allowed, atoi,
  or_zero,
}

-- The counters of the minutes.
abbrev pub Counts : Type 0
Counts = List (ℕ × ℕ)

unfoldable pub count_of : ℕ → Counts → ℕ
count_of k [] = 0
count_of k ((j, n) ∷ counts) = let rest = count_of k counts in if j == k then n else rest

unfoldable pub bump : ℕ → Counts → Counts
bump k [] = (k, 1) ∷ []
bump k ((j, n) ∷ counts) =
    let rest = bump k counts in if j == k then (j, suc n) ∷ counts else (j, n) ∷ rest

-- The counters of the last five minutes.
unfoldable pub keep_recent : ℕ → Counts → Counts
keep_recent current [] = []
keep_recent current ((j, n) ∷ counts) =
    let rest = keep_recent current counts in if ltb (j + 5) current then rest else (j, n) ∷ rest

pub record Limiter : Type 0 where
  pub p : Policy
  pub minute_counts : Counts
  pub per_job_hour_counts : Dict ℕ
  pub last_pruned_minute : ℕ
  pub last_pruned_hour : ℕ

unfoldable pub new_limiter : Policy → Limiter
new_limiter p = record {
  p = p;
  minute_counts = [];
  per_job_hour_counts = [];
  last_pruned_minute = 0;
  last_pruned_hour = 0;
}

abbrev pub hour_key : Text → Text → ℕ → Text
hour_key tenant_id job_name h =
    to_lower tenant_id ++ b'|' ∷ (to_lower job_name ++ b'|' ∷ format_uint h)

abbrev pub too_old : Option ℤ → ℕ → Bool
too_old none hour = true
too_old (some (negsuc n)) hour = ltb 1 (hour + n)
too_old (some (pos n)) hour = ltb (n + 2) hour

-- The hour at the end of a key with at least three parts.
abbrev pub last_part : List Text → Text
last_part [] = []
last_part (w ∷ []) = w
last_part (w ∷ v ∷ ws) = last_part (v ∷ ws)

abbrev pub is_stale : ℕ → List Text → Bool
is_stale hour (a ∷ b ∷ c ∷ ws) = too_old (atoi (last_part (c ∷ ws))) hour
is_stale hour _ = true

unfoldable pub keep_hours : ℕ → Dict ℕ → Dict ℕ
unfolding atoi split
keep_hours hour [] = []
keep_hours hour ((k, n) ∷ m) =
    let rest = keep_hours hour m in if is_stale hour (split b'|' k) then rest else (k, n) ∷ rest

unfoldable pub prune_minutes : ℕ → Limiter → Limiter
unfolding keep_recent
prune_minutes minute l =
    if (l.last_pruned_minute == 0) || leb (l.last_pruned_minute + 2) minute
    then record l {
      minute_counts = keep_recent minute l.minute_counts;
      last_pruned_minute = minute;
    }
    else l

unfoldable pub prune_hours : ℕ → Limiter → Limiter
unfolding keep_hours
prune_hours hour l =
    if (l.last_pruned_hour == 0) || leb (l.last_pruned_hour + 1) hour
    then record l {
      per_job_hour_counts = keep_hours hour l.per_job_hour_counts;
      last_pruned_hour = hour;
    }
    else l

unfoldable pub reset_old : ℕ → Limiter → Limiter
unfolding prune_minutes prune_hours
reset_old now l = prune_hours (now / 3600) (prune_minutes (now / 60) l)

-- `n >= limit`
abbrev pub reached : ℕ → ℤ → Bool
reached n (pos limit) = leb limit n
reached n (negsuc limit) = true

unfoldable pub count_trigger : ℕ → Text → Limiter → Limiter × Bool × Reason
unfolding count_of bump lookup insert
count_trigger minute key l =
    if reached (count_of minute l.minute_counts) l.p.max_triggers_per_minute
    then (l, false, rate_limited_minute)
    else if reached (or_zero (lookup key l.per_job_hour_counts)) l.p.max_triggers_per_job_per_hour
    then (l, false, rate_limited_job_hour)
    else (
      record l {
        minute_counts = bump minute l.minute_counts;
        per_job_hour_counts =
            insert key (suc (or_zero (lookup key l.per_job_hour_counts))) l.per_job_hour_counts;
      },
      true,
      allowed,
    )

unfoldable pub allow : ℕ → Text → Text → Limiter → Limiter × Bool × Reason
unfolding reset_old count_trigger to_lower format_uint
allow now tenant_id job_name l =
    if l.p.enabled
    then count_trigger (now / 60) (hour_key tenant_id job_name (now / 3600)) (reset_old now l)
    else (l, true, policy_disabled)
