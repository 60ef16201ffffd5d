-- ===== src/Circuit/Tests.antt =====
-- The circuit breaker on concrete calls, and the theorems at concrete inputs.
use chartly.Prelude.{ℕ, ◌+◌, ◌*◌, ◌≡◌, refl, true, false, List, [], ◌∷◌, ◌++◌, arith}
use chartly.Text.{Text, lit, text_eq, is_space, trim_space, to_lower}
use chartly.Dict.{lookup, insert}
use chartly.Circuit.{
  state_closed, state_open, state_half_open, Manager, second, default_circuit_config, new_manager,
  norm_key, get_or_create, prune_locked, allow_circuit, allow, report_circuit, report, allows,
  reports, step, run, drop_before,
}
use chartly.Circuit.Invariant.{IsSound, run-new_manager-IsSound}
use chartly.Circuit.Isolation.{names, circuit_run, get_or_create-run}
use chartly.Circuit.Timing.{
  OpenSince, open_until_timeout, failures_trip, half_open_decides, reports_at,
}

abbrev start : Manager
start = new_manager default_circuit_config

abbrev api : Text
api = lit "api"

abbrev five : List ℕ
five = 10 ∷ 11 ∷ 12 ∷ 13 ∷ 14 ∷ []

abbrev tripped : Manager
tripped = run start (reports_at (lit " API ") false five)

abbrev probing : Manager
probing = run tripped (allows api (14 + 30 * second) ∷ [])

tripped_open : (get_or_create tripped api).state ≡ state_open
unfolding run step allow report norm_key trim_space to_lower is_space text_eq get_or_create lookup
    insert allow_circuit report_circuit prune_locked drop_before default_circuit_config new_manager
tripped_open = refl

run-new_manager-IsSound_example : IsSound tripped
run-new_manager-IsSound_example =
    run-new_manager-IsSound default_circuit_config (reports_at (lit " API ") false five)

get_or_create-run_example :
    get_or_create tripped api
    ≡ circuit_run start.defaults api (get_or_create start api) (reports_at (lit " API ") false five)
get_or_create-run_example = get_or_create-run start api (reports_at (lit " API ") false five)

named : names (lit "Api") api ≡ true
unfolding norm_key trim_space to_lower is_space text_eq
named = refl

since : OpenSince 14 (get_or_create tripped api)
unfolding run step allow report norm_key trim_space to_lower is_space text_eq get_or_create lookup
    insert allow_circuit report_circuit prune_locked drop_before default_circuit_config new_manager
since = record { state = refl; since = refl }

start_defaults : tripped.defaults ≡ start.defaults
unfolding run step allow report norm_key trim_space to_lower is_space text_eq get_or_create lookup
    insert allow_circuit report_circuit prune_locked drop_before default_circuit_config new_manager
start_defaults = refl

open_until_timeout_example :
    OpenSince 14 (get_or_create (run tripped (reports api true 20 ∷ allows api 30 ∷ [])) api)
    × ((allow (run tripped (reports api true 20 ∷ allows api 30 ∷ [])) (lit "Api") 40).1.ok ≡ false)
unfolding run step report new_manager default_circuit_config
open_until_timeout_example =
    open_until_timeout tripped api 14 (reports api true 20 ∷ allows api 30 ∷ []) (lit "Api") 40
      since
      (unfold run step allow report norm_key trim_space to_lower is_space text_eq get_or_create
          lookup insert allow_circuit report_circuit prune_locked drop_before default_circuit_config
          new_manager in
        omega arith)
      named
      (unfold run step allow report norm_key trim_space to_lower is_space text_eq get_or_create
          lookup insert allow_circuit report_circuit prune_locked drop_before default_circuit_config
          new_manager in
        omega arith)

failures_trip_example :
    (get_or_create (run start (reports_at (lit "Api") false five)) api).state ≡ state_open
unfolding run step allow report norm_key trim_space to_lower is_space text_eq get_or_create lookup
    insert allow_circuit report_circuit prune_locked drop_before default_circuit_config new_manager
failures_trip_example =
    failures_trip start (lit "Api") api 10 five named
      (record {
        closed_below = λ e. omega arith;
        half_open_below = λ e. omega arith;
        idle_zero = λ e. refl;
      })
      refl tt (omega arith) (omega arith)

probing_half : (get_or_create probing api).state ≡ state_half_open
unfolding run step allow report norm_key trim_space to_lower is_space text_eq get_or_create lookup
    insert allow_circuit report_circuit prune_locked drop_before default_circuit_config new_manager
probing_half = refl

half_open_decides_example :
    (let c' = get_or_create (run probing (reports_at (lit "Api") true (1 ∷ 2 ∷ []))) api in
      (c'.state ≡ state_closed) × (c'.failures ≡ []))
    × ((get_or_create (run probing (reports_at (lit "Api") true (3 ∷ []))) api).state
        ≡ state_half_open)
    × OpenSince 7 (
        get_or_create
          (run probing (reports_at (lit "Api") true (3 ∷ []) ++ reports (lit "Api") false 7 ∷ []))
          api)
half_open_decides_example =
    half_open_decides probing (lit "Api") api (1 ∷ 2 ∷ []) (3 ∷ []) 7 named
      (unfold run step allow report norm_key trim_space to_lower is_space text_eq get_or_create
          lookup insert allow_circuit report_circuit prune_locked drop_before default_circuit_config
          new_manager in
        record {
          closed_below = λ e. cc;
          half_open_below = λ e. omega arith;
          idle_zero = λ e. refl;
        })
      probing_half
      (unfold run step allow report norm_key trim_space to_lower is_space text_eq get_or_create
          lookup insert allow_circuit report_circuit prune_locked drop_before default_circuit_config
          new_manager in
        refl)
      (omega arith)
