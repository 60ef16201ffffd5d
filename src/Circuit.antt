-- ===== src/Circuit.antt =====
-- The circuit breaker of the connector hub,
-- services/connector-hub/internal/pool/circuit_breaker.go. A time is a number of nanoseconds, 0 is
-- the zero time, and the clock is an argument of each call that reads it.
pub mod Invariant
pub mod Isolation
pub mod Timing
mod Tests
use chartly.Prelude.{
  ℕ, ◌+◌, ◌-◌, ◌*◌, ◌^◌, Bool, true, false, Option, none, some, List, [], ◌∷◌, ◌++◌, ltb, leb, ◌==◌,
  if◌then◌else◌, length,
}
use chartly.Prelude.Int.{ℤ, pos, or_default}
use chartly.Text.{Text, is_empty, trim_space, to_lower}
use chartly.Dict.{Dict, lookup, insert}

pub data State : Type 0 where
  state_closed state_open state_half_open : State

pub record CircuitConfig : Type 0 where
  pub failure_threshold : ℤ
  pub success_threshold : ℤ
  pub open_timeout : ℤ
  pub window : ℤ

abbrev pub second : ℕ
second = 10 ^ 9

unfoldable pub default_circuit_config : CircuitConfig
default_circuit_config = record {
  failure_threshold = pos 5;
  success_threshold = pos 2;
  open_timeout = pos (30 * second);
  window = pos (60 * second);
}

pub record Circuit : Type 0 where
  pub state : State
  pub failures : List ℕ
  pub half_open_successes : ℕ
  pub opened_at : ℕ

-- A configuration that `new_manager` has completed.
pub record Defaults : Type 0 where
  pub failure_threshold : ℕ
  pub success_threshold : ℕ
  pub open_timeout : ℕ
  pub window : ℕ

pub record Manager : Type 0 where
  pub per_key : Dict Circuit
  pub defaults : Defaults

unfoldable pub new_manager : CircuitConfig → Manager
new_manager c = record {
  per_key = [];
  defaults = record {
    failure_threshold = or_default c.failure_threshold 5;
    success_threshold = or_default c.success_threshold 2;
    open_timeout = or_default c.open_timeout (30 * second);
    window = or_default c.window (60 * second);
  };
}

unfoldable pub norm_key : Text → Text
norm_key s = to_lower (trim_space s)

abbrev pub new_circuit : Circuit
new_circuit = record { state = state_closed; failures = []; half_open_successes = 0; opened_at = 0 }

abbrev pub or_new : Option Circuit → Circuit
or_new none = new_circuit
or_new (some c) = c

-- The circuit that the call works on; `put` stores it, also where it is new and unchanged.
unfoldable pub get_or_create : Manager → Text → Circuit
get_or_create m key = or_new (lookup key m.per_key)

abbrev pub put : Manager → Text → Circuit → Manager
put m key c = record m { per_key = insert key c m.per_key }

-- The loop over the failures from the front.
unfoldable pub drop_before : ℕ → List ℕ → List ℕ
drop_before cut [] = []
drop_before cut (t ∷ ts) = if ltb t cut then drop_before cut ts else t ∷ ts

-- The times are at least 0, so a cut before 0 drops as little as a cut at 0.
unfoldable pub prune_locked : Defaults → Circuit → ℕ → Circuit
prune_locked d c now =
    if d.window == 0 then c else record c { failures = drop_before (now - d.window) c.failures }

pub data Reason : Type 0 where
  empty_key open_timeout_elapsed reason_open reason_half_open reason_closed : Reason

pub record Verdict : Type 0 where
  pub ok : Bool
  pub state : State
  pub reason : Reason

-- The switch of `Allow`.
unfoldable pub allow_circuit : State → Defaults → Circuit → ℕ → Circuit × Verdict
allow_circuit state_open d c now =
    if leb (c.opened_at + d.open_timeout) now
    then (
      record c { state = state_half_open; half_open_successes = 0 },
      record { ok = true; state = state_half_open; reason = open_timeout_elapsed },
    )
    else (c, record { ok = false; state = state_open; reason = reason_open })
allow_circuit state_half_open d c now =
    (c, record { ok = true; state = state_half_open; reason = reason_half_open })
allow_circuit state_closed d c now =
    (c, record { ok = true; state = state_closed; reason = reason_closed })

allow_key : Bool → Manager → Text → ℕ → Manager × Verdict
unfolding get_or_create allow_circuit
allow_key true m key now = (m, record { ok = true; state = state_closed; reason = empty_key })
allow_key false m key now =
    let c = get_or_create m key in
    let (c', v) = allow_circuit c.state m.defaults c now in (put m key c', v)

unfoldable pub allow : Manager → Text → ℕ → Manager × Verdict
unfolding allow_key
allow m key now = let k = norm_key key in allow_key (is_empty k) m k now

add_failure : Defaults → Circuit → ℕ → Circuit
unfolding prune_locked
add_failure d c now = prune_locked d (record c { failures = c.failures ++ now ∷ [] }) now

trip : Circuit → ℕ → Circuit
trip c now = record c { state = state_open; opened_at = now; half_open_successes = 0 }

-- The switch of `Report`.
unfoldable pub report_circuit : State → Bool → Defaults → Circuit → ℕ → Circuit
unfolding add_failure trip
report_circuit state_half_open true d c now =
    let n = c.half_open_successes + 1 in
    if leb d.success_threshold n
    then record { state = state_closed; failures = []; half_open_successes = 0; opened_at = 0 }
    else record c { half_open_successes = n }
report_circuit state_half_open false d c now = add_failure d (trip c now) now
report_circuit state_open true d c now = c
report_circuit state_open false d c now = add_failure d c now
report_circuit state_closed true d c now = prune_locked d c now
report_circuit state_closed false d c now =
    let c' = add_failure d c now in
    if leb d.failure_threshold (length c'.failures) then trip c' now else c'

report_key : Bool → Manager → Text → Bool → ℕ → Manager
unfolding get_or_create report_circuit
report_key true m key success now = m
report_key false m key success now =
    let c = get_or_create m key in put m key (report_circuit c.state success m.defaults c now)

unfoldable pub report : Manager → Text → Bool → ℕ → Manager
unfolding report_key
report m key success now = let k = norm_key key in report_key (is_empty k) m k success now

pub record SnapshotView : Type 0 where
  pub key : Text
  pub state : State
  pub failures : ℕ
  pub opened_at : Option (ℕ × ℕ)
  pub half_open : Option (ℕ × ℕ)

abbrev half_open_view : State → ℕ → ℕ → Option (ℕ × ℕ)
half_open_view state_half_open n t = some (n, t)
half_open_view _ n t = none

unfoldable pub snapshot : Manager → Text → ℕ → Manager × SnapshotView
unfolding get_or_create prune_locked
snapshot m key now =
    let k = norm_key key in
    let c = prune_locked m.defaults (get_or_create m k) now in
    (
      put m k c,
      record {
        key = k;
        state = c.state;
        failures = length c.failures;
        opened_at = if c.opened_at == 0 then none else some (c.opened_at, m.defaults.open_timeout);
        half_open = half_open_view c.state c.half_open_successes m.defaults.success_threshold;
      },
    )

pub data DoResult : Type 0 where
  circuit_open ctx_err : DoResult
  done : Bool → DoResult

-- `Do` with the outcome of `fn`: whether the context was done, whether `fn` returned no error, and
-- the time at which it returned. The mutex is held in `Allow` and in `Report` only: this is a `Do` that
-- no other call comes into; one with calls in between is `allows`, those calls and `reports`.
unfoldable pub do_call : Manager → Text → ℕ → Bool → Bool → ℕ → Manager × DoResult
do_call m key now ctx_done success later =
    let (m', v) = allow m key now in
    if v.ok
    then if ctx_done then (m', ctx_err) else (report m' key success later, done success)
    else (m', circuit_open)

-- A call of the manager, with the times at which it reads the clock and what `fn` did.
pub data Call : Type 0 where
  allows : Text → ℕ → Call
  reports : Text → Bool → ℕ → Call
  snapshots : Text → ℕ → Call
  does : Text → ℕ → Bool → Bool → ℕ → Call

unfoldable pub step : Manager → Call → Manager
step m (allows k now) = (allow m k now).0
step m (reports k b now) = report m k b now
step m (snapshots k now) = (snapshot m k now).0
step m (does k now ctx_done b later) = (do_call m k now ctx_done b later).0

unfoldable pub run : Manager → List Call → Manager
run m [] = m
run m (c ∷ cs) = run (step m c) cs
