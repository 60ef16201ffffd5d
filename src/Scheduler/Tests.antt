-- ===== src/Scheduler/Tests.antt =====
-- Decisions of the default policy and a limiter of two triggers a minute.
use chartly.Prelude.{ℕ, ◌≤◌, ◌≡◌, refl, true, false, some, none, List, [], ◌∷◌, arith}
use chartly.Prelude.Int.{pos}
use chartly.Text.{lit, text_eq}
use chartly.Scheduler.{
  Policy, Zones, decision, job_type_not_allowed, allowed, quiet_hours_deny, default_policy, decide,
  parse_hhmm, validate,
}
use chartly.Scheduler.Limiter.{new_limiter}
use chartly.Scheduler.Limiter.Bounded.{Trigger, allowed_in, allowed_in-new_limiter}

abbrev no_zones : Zones
no_zones tz = none

abbrev nightly : Policy
nightly = record default_policy {
  quiet_hours = record default_policy.quiet_hours { enabled = true };
}

morning : parse_hhmm (lit " 06:30") ≡ some 390
unfolding parse_hhmm
morning = refl

default_valid : validate no_zones default_policy ≡ none
unfolding validate default_policy
default_valid = refl

ingesting : decide no_zones default_policy 0 (lit "acme") (lit " Ingest") ≡ decision true allowed
unfolding decide default_policy
ingesting = refl

exporting :
    decide no_zones default_policy 0 (lit "acme") (lit "export")
    ≡ decision false job_type_not_allowed
unfolding decide default_policy
exporting = refl

at_night :
    decide no_zones nightly 82800 (lit "acme") []
    ≡ (record { allow = false; reason = quiet_hours_deny; quiet = true })
unfolding decide default_policy
at_night = refl

abbrev two_a_minute : Policy
two_a_minute = record default_policy { max_triggers_per_minute = pos 2 }

abbrev at : ℕ → Trigger
at now = record { now = now; tenant_id = lit "acme"; job_name = lit "load" }

abbrev triggers : List Trigger
triggers = at 60 ∷ at 61 ∷ at 70 ∷ at 119 ∷ at 120 ∷ []

two_pass : allowed_in 1 triggers (new_limiter two_a_minute) ≡ 2
unfolding allowed_in new_limiter default_policy text_eq
two_pass = refl

allowed_in-new_limiter_example : allowed_in 1 triggers (new_limiter two_a_minute) ≤ 2
unfolding default_policy
allowed_in-new_limiter_example =
    allowed_in-new_limiter 1 two_a_minute triggers refl
      (omega arith, (omega arith, (omega arith, (omega arith, (omega arith, tt)))))
