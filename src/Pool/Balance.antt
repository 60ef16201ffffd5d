-- ===== src/Pool/Balance.antt =====
-- The counters of the connection pool and the calls in progress, along a run of
-- services/connector-hub/internal/pool/connection_pool.go.
use chartly.Prelude.{
  ℕ, ◌+◌, ◌%◌, ◌^◌, ◌≤◌, ◌<◌, ◌≡◌, refl, sym, ap, ◌∙◌, some, List, [], ◌∷◌, ◌++◌, arith, length,
  get_elem?, All, sum_by, rest_by, sum_by-rest_by, sum_by-set, sum_by-append_one, Option-cases, inl,
  inr,
}
use mathlib.Core.Path.{subst}
use chartly.Pool.{stats, Settings, Pool, new_pool}
use chartly.Pool.Step.{Call, holding, done, failed, Moved, move}
use chartly.Pool.Run.{
  Method, acquire, start, reap_once, stop, World, Event, begin, act, step, run, entry, put_back,
}
use chartly.Pool.Accounts.{
  live, uses, sent, received, open_by, to_warm, stale, Accounts, Kept, move-Accounts, move-cfg,
}

-- What a world accounts for.
abbrev pub Balanced : World → Type 0
Balanced w =
    Accounts w.pool (sum_by live w.calls) (sum_by uses w.calls) (sum_by sent w.calls)
      (sum_by received w.calls) (sum_by open_by w.calls) (sum_by to_warm w.calls)
      (sum_by (stale w.pool.cfg) w.calls)

entry-Balanced :
    (w : World) (m : Method) → Balanced w → Balanced (record w { calls = w.calls ++ entry m ∷ [] })
entry-Balanced w m h =
    rw
      (
        sum_by-append_one live w.calls (entry m),
        sum_by-append_one uses w.calls (entry m),
        sum_by-append_one sent w.calls (entry m),
        sum_by-append_one received w.calls (entry m),
        sum_by-append_one open_by w.calls (entry m),
        sum_by-append_one to_warm w.calls (entry m),
        sum_by-append_one (stale w.pool.cfg) w.calls (entry m),
      )
      (idle_entry m h)
  where
    idle_entry :
        (m : Method)
        → Balanced w
        → Kept
            (entry m, w.pool)
            (sum_by live w.calls)
            (sum_by uses w.calls)
            (sum_by sent w.calls)
            (sum_by received w.calls)
            (sum_by open_by w.calls)
            (sum_by to_warm w.calls)
            (sum_by (stale w.pool.cfg) w.calls)
    idle_entry acquire h = ground arith
    idle_entry start h = ground arith
    idle_entry reap_once h = ground arith
    idle_entry stop h = ground arith

Rests : (w : World) (i : ℕ) → Moved → Type 0
Rests w i m =
    Kept m (rest_by live w.calls i) (rest_by uses w.calls i) (rest_by sent w.calls i)
      (rest_by received w.calls i) (rest_by open_by w.calls i) (rest_by to_warm w.calls i)
      (rest_by (stale w.pool.cfg) w.calls i)

Balanced-Rests :
    (w : World) (i : ℕ) (c : Call)
    → get_elem? w.calls i ≡ some c
    → Balanced w
    → Rests w i (c, w.pool)
unfolding Rests
Balanced-Rests w i c found h =
    rw
      (
        ← sum_by-rest_by live w.calls i c found,
        ← sum_by-rest_by uses w.calls i c found,
        ← sum_by-rest_by sent w.calls i c found,
        ← sum_by-rest_by received w.calls i c found,
        ← sum_by-rest_by open_by w.calls i c found,
        ← sum_by-rest_by to_warm w.calls i c found,
        ← sum_by-rest_by (stale w.pool.cfg) w.calls i c found,
      )
      h

Rests-Balanced :
    (w : World) (i : ℕ) (c c' : Call) (p : Pool)
    → get_elem? w.calls i ≡ some c
    → p.cfg ≡ w.pool.cfg
    → Rests w i (c', p)
    → Balanced (put_back w i (c', p))
unfolding Rests
Rests-Balanced w i c c' p found same h =
    rw
      (
        sum_by-set live w.calls i c c' found,
        sum_by-set uses w.calls i c c' found,
        sum_by-set sent w.calls i c c' found,
        sum_by-set received w.calls i c c' found,
        sum_by-set open_by w.calls i c c' found,
        sum_by-set to_warm w.calls i c c' found,
        sum_by-set (stale p.cfg) w.calls i c c' found,
      )
      (subst
        (λ cfg.
          Accounts p (rest_by live w.calls i + live c') (rest_by uses w.calls i + uses c')
            (rest_by sent w.calls i + sent c') (rest_by received w.calls i + received c')
            (rest_by open_by w.calls i + open_by c') (rest_by to_warm w.calls i + to_warm c')
            (rest_by (stale cfg) w.calls i + stale p.cfg c'))
        (sym same) h)

step-Balanced : (e : Event) (w : World) → Balanced w → Balanced (step e w)
unfolding step
step-Balanced (begin m) w h = entry-Balanced w m h
step-Balanced (act i a) w h = elim (Option-cases (get_elem? w.calls i)) [
  | inl missing ↦ rw missing h
  | inr (c, found) ↦
      let moved = move a c w.pool in
      rw found (
        Rests-Balanced w i c moved.0 moved.1 found (move-cfg a c w.pool)
          (unfold Rests in move-Accounts a c w.pool _ _ _ _ _ _ _ (Balanced-Rests w i c found h)))
]

abbrev pub world : Settings → World
world cfg = record { pool = new_pool cfg; calls = [] }

new_pool-Balanced : (cfg : Settings) → cfg.max_size + cfg.min_size < 2 ^ 63 → Balanced (world cfg)
unfolding new_pool
new_pool-Balanced cfg h = ground arith

pub run-Balanced : (es : List Event) (w : World) → Balanced w → Balanced (run es w)
unfolding run
run-Balanced [] w h = h
run-Balanced (e ∷ es) w h = run-Balanced es (step e w) (step-Balanced e w h)

step-cfg : (e : Event) (w : World) → (step e w).pool.cfg ≡ w.pool.cfg
unfolding step
step-cfg (begin m) w = refl
step-cfg (act i a) w = elim (Option-cases (get_elem? w.calls i)) [
  | inl missing ↦ rw missing refl
  | inr (c, found) ↦ rw found (move-cfg a c w.pool)
]

pub run-cfg : (es : List Event) (w : World) → (run es w).pool.cfg ≡ w.pool.cfg
unfolding run
run-cfg [] w = refl
run-cfg (e ∷ es) w = run-cfg es (step e w) ∙ step-cfg e w

-- In every interleaving of Acquire, release, Start, Stop and reapOnce on a new pool whose sizes add up
-- to less than 2 ^ 63: the channel holds at most MaxSize resources; the open slots, those in the
-- channel and those that calls answer for, are what Total counts; they are at most MaxSize and MinSize
-- together, and so at most MaxSize where MinSize is 0.
pub pool_bounds :
    (cfg : Settings) (es : List Event)
    → cfg.max_size + cfg.min_size < 2 ^ 63
    → let w = run es (world cfg) in
      (length w.pool.ch ≤ cfg.max_size)
      × (w.pool.total ≡ length w.pool.ch + sum_by live w.calls)
      × (w.pool.total ≤ cfg.max_size + cfg.min_size)
unfolding new_pool
pool_bounds cfg es h =
    let same : (run es (world cfg)).pool.cfg ≡ cfg = run-cfg es (world cfg) in
    let b = run-Balanced es (world cfg) (new_pool-Balanced cfg h) in
    (
      omega (arith, b.within, ap (λ (c : Settings). c.max_size) same),
      b.total_counts,
      omega (
        arith,
        b.room,
        ap (λ (c : Settings). c.max_size) same,
        ap (λ (c : Settings). c.min_size) same,
      ),
    )

-- Whether a call has returned to its caller, with a resource or without.
abbrev pub Returned : Call → Type 0
Returned (holding it) = Unit
Returned done = Unit
Returned (failed e) = Unit
Returned _ = ⊥

abbrev pub holds : Call → ℕ
holds (holding it) = 1
holds _ = 0

Returned-sums :
    (cs : List Call)
    → All Returned cs
    → (sum_by live cs ≡ sum_by holds cs)
      × (sum_by uses cs ≡ sum_by holds cs)
      × (sum_by open_by cs ≡ sum_by holds cs)
      × (sum_by sent cs ≡ 0)
      × (sum_by received cs ≡ 0)
Returned-sums [] h = (refl, refl, refl, refl, refl)
Returned-sums (holding it ∷ cs) h = ground (arith, Returned-sums cs h.1)
Returned-sums (done ∷ cs) h = ground (arith, Returned-sums cs h.1)
Returned-sums (failed e ∷ cs) h = ground (arith, Returned-sums cs h.1)
Returned-sums (c ∷ cs) h = absurd h.0

-- The counters that Stats reads agree with one another while no call is in progress: after any
-- interleaving that leaves every call returned, Total is Idle and InUse together, InUse is the number of
-- resources that callers hold, Idle the number in the channel, and Created is Closed and Total
-- together, modulo 2 ^ 64.
pub quiet_stats :
    (cfg : Settings) (es : List Event)
    → cfg.max_size + cfg.min_size < 2 ^ 63
    → All Returned (run es (world cfg)).calls
    → let w = run es (world cfg) in
      let s = stats w.pool in
      (s.total ≡ s.idle + s.in_use)
      × (s.in_use ≡ sum_by holds w.calls)
      × (s.idle ≡ length w.pool.ch)
      × (s.created ≡ (s.closed + s.total) % 2 ^ 64)
unfolding stats
quiet_stats cfg es h quiet =
    let w = run es (world cfg) in
    let b = run-Balanced es (world cfg) (new_pool-Balanced cfg h) in
    let sums = Returned-sums w.calls quiet in omega (arith, b, sums)
