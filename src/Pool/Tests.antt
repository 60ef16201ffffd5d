-- ===== src/Pool/Tests.antt =====
-- Interleavings on small connection pools.
use chartly.Prelude.{
  ℕ, ◌+◌, ◌^◌, ◌≤◌, ◌%◌, ◌≡◌, ◌≢◌, refl, Bool, true, false, some, List, ◌∷◌, ◌++◌, arith, length,
  get_elem?, replicate, All, sum_by,
}
use chartly.Prelude.Int.{pos}
use chartly.Pool.{Settings, settle, Pooled, new_pool, stats}
use chartly.Pool.Step.{holding, waiting, done, Answer}
use chartly.Pool.Run.{acquire, start, stop, Event, begin, act, run}
use chartly.Pool.Accounts.{live}
use chartly.Pool.Balance.{world, Returned, holds, pool_bounds, quiet_stats}
use chartly.Pool.Owners.{is_named, one_owner}

abbrev sizes : ℕ → ℕ → Settings
sizes most least =
    settle
      (record {
        max_size = pos most;
        min_size = pos least;
        acquire_timeout = pos 0;
        idle_timeout = pos 0;
        max_lifetime = pos 0;
        reap_interval = pos 0;
      })
      true

abbrev answer : Bool → Answer
answer healthy = record { now = 0; factory_ok = true; healthy = healthy; late = false }

-- The call with an index makes some actions, with a resource that is well.
abbrev goes : ℕ → ℕ → List Event
goes i n = replicate n (act i (answer true))

-- The first call loses the race for the first slot and tries again.
abbrev two_callers : List Event
two_callers = begin acquire ∷ begin acquire ∷ goes 0 4 ++ goes 1 8 ++ goes 0 7

abbrev numbered : ℕ → Pooled
numbered id = record { id = id; created = 0; last_used = 0 }

two_hold :
    (get_elem? (run two_callers (world (sizes 2 0))).calls 0 ≡ some (holding (numbered 1)))
    × (get_elem? (run two_callers (world (sizes 2 0))).calls 1 ≡ some (holding (numbered 0)))
unfolding run new_pool
two_hold = (refl, refl)

two_quiet : All Returned (run two_callers (world (sizes 2 0))).calls
unfolding run new_pool
two_quiet = (tt, (tt, tt))

one_owner_example :
    ((numbered 1).id ≢ (numbered 0).id)
    × (sum_by (is_named 1) (run two_callers (world (sizes 2 0))).pool.ch ≡ 0)
one_owner_example =
    one_owner (sizes 2 0) two_callers 0 1 (numbered 1) (numbered 0) (omega arith) two_hold.0
      two_hold.1

quiet_stats_example :
    let w = run two_callers (world (sizes 2 0)) in
    let s = stats w.pool in
    (s.total ≡ s.idle + s.in_use)
    × (s.in_use ≡ sum_by holds w.calls)
    × (s.idle ≡ length w.pool.ch)
    × (s.created ≡ (s.closed + s.total) % 2 ^ 64)
quiet_stats_example = quiet_stats (sizes 2 0) two_callers (omega arith) two_quiet

-- Start warms the pool up while an Acquire makes a resource: one slot more than MaxSize.
abbrev warm_race : List Event
warm_race = begin start ∷ begin acquire ∷ goes 0 2 ++ goes 1 8 ++ goes 0 5

pool_bounds_example :
    let w = run warm_race (world (sizes 1 1)) in
    (length w.pool.ch ≤ 1)
    × (w.pool.total ≡ length w.pool.ch + sum_by live w.calls)
    × (w.pool.total ≤ 2)
pool_bounds_example = pool_bounds (sizes 1 1) warm_race (omega arith)

warm_race_exceeds : (run warm_race (world (sizes 1 1))).pool.total ≡ 2
unfolding run new_pool
warm_race_exceeds = refl

-- One caller gives its resource back as broken while another waits: the slot is free, and the
-- caller that waits does not take it.
abbrev broken_release : List Event
broken_release =
    begin acquire ∷ begin acquire ∷ goes 0 8
    ++ goes 1 5
    ++ act 0 (answer false) ∷ goes 0 5
    ++ goes 1 50

free_slot_unused :
    ((run broken_release (world (sizes 1 0))).pool.total ≡ 0)
    × (get_elem? (run broken_release (world (sizes 1 0))).calls 0 ≡ some done)
    × (get_elem? (run broken_release (world (sizes 1 0))).calls 1 ≡ some waiting)
unfolding run new_pool
free_slot_unused = (refl, refl, refl)

-- A release that saw the pool open puts its resource into the channel after Stop has drained it.
abbrev late_release : List Event
late_release = begin acquire ∷ begin stop ∷ goes 0 11 ++ goes 1 4 ++ goes 0 5

stop_leaks :
    (length (run late_release (world (sizes 1 0))).pool.ch ≡ 1)
    × (sum_by live (run late_release (world (sizes 1 0))).calls ≡ 0)
    × ((run late_release (world (sizes 1 0))).pool.closed ≡ true)
unfolding run new_pool
stop_leaks = (refl, refl, refl)
