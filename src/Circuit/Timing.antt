-- ===== src/Circuit/Timing.antt =====
-- When the circuit opens, how long it stays open, and when it closes again.
use chartly.Prelude.{
  ℕ, ◌+◌, ◌-◌, ◌≤◌, ◌<◌, ◌≡◌, refl, Bool, true, false, List, [], ◌∷◌, ◌++◌, arith, leb,
  if◌then◌else◌, length, length-append, All, Bool-cases, inl, inr,
}
use chartly.Text.{Text}
use chartly.Circuit.{
  state_closed, state_open, state_half_open, Circuit, Defaults, Manager, drop_before, prune_locked,
  allow_circuit, report_circuit, allow, get_or_create, Call, allows, reports, snapshots, does, run,
}
use chartly.Circuit.Isolation.{
  names, circuit_step, circuit_run, get_or_create-run, verdict-allow, defaults-run,
}
use chartly.Circuit.Invariant.{Inv}

-- Every time at which the call reads the clock is before `t`.
abbrev pub IsBefore : ℕ → Call → Type 0
IsBefore t (allows key now) = now < t
IsBefore t (reports key b now) = now < t
IsBefore t (snapshots key now) = now < t
IsBefore t (does key now ctx_done b later) = now < t

pub record OpenSince (t : ℕ) (c : Circuit) : Type 0 where
  pub state : c.state ≡ state_open
  pub since : c.opened_at ≡ t

OpenSince-circuit_step :
    (d : Defaults) (k : Text) (t : ℕ) (c : Circuit) (x : Call)
    → IsBefore (t + d.open_timeout) x
    → OpenSince t c
    → OpenSince t (circuit_step d k c x)
unfolding circuit_step allow_circuit report_circuit prune_locked
OpenSince-circuit_step d k t c (allows key now) h o = ground arith
OpenSince-circuit_step d k t c (reports key b now) h o = ground arith
OpenSince-circuit_step d k t c (snapshots key now) h o = ground arith
OpenSince-circuit_step d k t c (does key now ctx_done b later) h o = ground arith

OpenSince-circuit_run :
    (d : Defaults) (k : Text) (t : ℕ) (c : Circuit) (xs : List Call)
    → All (IsBefore (t + d.open_timeout)) xs
    → OpenSince t c
    → OpenSince t (circuit_run d k c xs)
unfolding circuit_run
OpenSince-circuit_run d k t c [] h o = o
OpenSince-circuit_run d k t c (x ∷ xs) h o =
    OpenSince-circuit_run d k t (circuit_step d k c x) xs h.1
      (OpenSince-circuit_step d k t c x h.0 o)

-- A circuit that opened at time `t` refuses every call until the open timeout has passed, whatever
-- is called meanwhile: after any calls that read the clock before `t` plus the timeout, it is still
-- open since `t`, and `Allow` before that time answers no.
pub open_until_timeout :
    (m : Manager) (k : Text) (t : ℕ) (xs : List Call) (key : Text) (now : ℕ)
    → OpenSince t (get_or_create m k)
    → All (IsBefore (t + m.defaults.open_timeout)) xs
    → names key k ≡ true
    → now < t + m.defaults.open_timeout
    → OpenSince t (get_or_create (run m xs) k) × ((allow (run m xs) key now).1.ok ≡ false)
unfolding allow_circuit
open_until_timeout m k t xs key now o before mine early =
    let still : OpenSince t (get_or_create (run m xs) k) =
      rw get_or_create-run (OpenSince-circuit_run m.defaults k t _ xs before o) in
    (
      still,
      ground (
        arith,
        verdict-allow (run m xs) key k now mine,
        defaults-run m xs,
        still.state,
        still.since,
      ),
    )

-- Failures reported one after the other, and successes.
abbrev pub reports_at : Text → Bool → List ℕ → List Call
reports_at key b [] = []
reports_at key b (t ∷ ts) = reports key b t ∷ reports_at key b ts

keeps_recent :
    (cut lo : ℕ) (fs : List ℕ) → All (λ t. lo ≤ t) fs → cut ≤ lo → drop_before cut fs ≡ fs
unfolding drop_before
keeps_recent cut lo [] h c = refl
keeps_recent cut lo (t ∷ fs) h c = ground arith

All-snoc :
    (lo : ℕ) (fs : List ℕ) (t : ℕ)
    → All (λ x. lo ≤ x) fs
    → lo ≤ t
    → All (λ x. lo ≤ x) (fs ++ t ∷ [])
All-snoc lo [] t h e = (e, tt)
All-snoc lo (f ∷ fs) t h e = (h.0, All-snoc lo fs t h.1 e)

module _ (d : Defaults) (key k : Text) (mine : names key k ≡ true) where
  open_stays :
      (ts : List ℕ) (c : Circuit)
      → c.state ≡ state_open
      → (circuit_run d k c (reports_at key false ts)).state ≡ state_open
  unfolding circuit_run
  open_stays [] c h = h
  open_stays (t ∷ ts) c h =
      open_stays ts (circuit_step d k c (reports key false t))
        (unfold circuit_step report_circuit prune_locked in ground arith)

  closed_step :
      (lo t : ℕ) (c : Circuit)
      → c.state ≡ state_closed
      → All (λ x. lo ≤ x) c.failures
      → lo ≤ t
      → t ≤ lo + d.window
      → let c' = circuit_step d k c (reports key false t) in
        (c'.failures ≡ c.failures ++ t ∷ [])
        × (c'.state ≡ (
            if leb d.failure_threshold (length c.failures + 1) then state_open else state_closed))
  unfolding circuit_step report_circuit prune_locked
  closed_step lo t c h recent a b = ground (
    arith,
    keeps_recent (t - d.window) lo (c.failures ++ t ∷ []) (All-snoc lo c.failures t recent a)
        (omega arith),
    length-append c.failures (t ∷ []),
  )

  closed_trips :
      (lo : ℕ) (ts : List ℕ) (c : Circuit)
      → c.state ≡ state_closed
      → length c.failures < d.failure_threshold
      → All (λ x. lo ≤ x) c.failures
      → All (λ x. (lo ≤ x) × (x ≤ lo + d.window)) ts
      → d.failure_threshold ≤ length c.failures + length ts
      → (circuit_run d k c (reports_at key false ts)).state ≡ state_open
  unfolding circuit_run
  closed_trips lo [] c h below recent near enough = absurd (omega arith)
  closed_trips lo (t ∷ ts) c h below recent near enough =
      let c' = circuit_step d k c (reports key false t) in
      let (fs, st) = closed_step lo t c h recent near.0.0 near.0.1 in
      elim (Bool-cases (leb d.failure_threshold (length c.failures + 1))) [
        | inl e ↦ open_stays ts c' (ground arith)
        | inr e ↦
            closed_trips lo ts c' (ground arith) (ground (arith, length-append c.failures (t ∷ [])))
              (rw fs (All-snoc lo c.failures t recent near.0.0)) near.1
              (ground (arith, length-append c.failures (t ∷ [])))
      ]

  half_open_step :
      (t : ℕ) (c : Circuit)
      → c.state ≡ state_half_open
      → let c' = circuit_step d k c (reports key true t) in
        if leb d.success_threshold (c.half_open_successes + 1)
        then (c'.state ≡ state_closed) × (c'.failures ≡ [])
        else (c'.state ≡ state_half_open) × (c'.half_open_successes ≡ c.half_open_successes + 1)
  unfolding circuit_step report_circuit
  half_open_step t c h = ground arith

  half_open_closes :
      (ts : List ℕ) (c : Circuit)
      → c.state ≡ state_half_open
      → c.half_open_successes < d.success_threshold
      → c.half_open_successes + length ts ≡ d.success_threshold
      → let c' = circuit_run d k c (reports_at key true ts) in
        (c'.state ≡ state_closed) × (c'.failures ≡ [])
  unfolding circuit_run
  half_open_closes [] c h below e = absurd (omega arith)
  half_open_closes (t ∷ []) c h below e = ground (arith, half_open_step t c h)
  half_open_closes (t ∷ u ∷ ts) c h below e =
      half_open_closes (u ∷ ts) (circuit_step d k c (reports key true t))
        (ground (arith, half_open_step t c h)) (ground (arith, half_open_step t c h))
        (ground (arith, half_open_step t c h))

  half_open_waits :
      (us : List ℕ) (c : Circuit)
      → c.state ≡ state_half_open
      → c.half_open_successes + length us < d.success_threshold
      → (circuit_run d k c (reports_at key true us)).state ≡ state_half_open
  unfolding circuit_run
  half_open_waits [] c h few = h
  half_open_waits (u ∷ us) c h few =
      half_open_waits us (circuit_step d k c (reports key true u))
        (ground (arith, half_open_step u c h)) (ground (arith, half_open_step u c h))

  half_open_fails :
      (now : ℕ) (c : Circuit)
      → c.state ≡ state_half_open
      → OpenSince now (circuit_step d k c (reports key false now))
  unfolding circuit_step report_circuit prune_locked
  half_open_fails now c h = ground arith

  half_open_reopens :
      (us : List ℕ) (now : ℕ) (c : Circuit)
      → c.state ≡ state_half_open
      → c.half_open_successes + length us < d.success_threshold
      → OpenSince now (circuit_run d k c (reports_at key true us ++ reports key false now ∷ []))
  unfolding circuit_run
  half_open_reopens [] now c h few = half_open_fails now c h
  half_open_reopens (u ∷ us) now c h few =
      half_open_reopens us now (circuit_step d k c (reports key true u))
        (ground (arith, half_open_step u c h)) (ground (arith, half_open_step u c h))

-- A closed circuit trips: if it satisfies its invariant, then failures reported for its key within
-- one window of all those that it remembers leave it open as soon as they make up the failure
-- threshold together.
pub failures_trip :
    (m : Manager) (key k : Text) (lo : ℕ) (ts : List ℕ)
    → let c = get_or_create m k in
      names key k ≡ true
      → Inv m.defaults c
      → c.state ≡ state_closed
      → All (λ x. lo ≤ x) c.failures
      → All (λ x. (lo ≤ x) × (x ≤ lo + m.defaults.window)) ts
      → m.defaults.failure_threshold ≤ length c.failures + length ts
      → (get_or_create (run m (reports_at key false ts)) k).state ≡ state_open
failures_trip m key k lo ts mine v closed recent near enough = rw get_or_create-run (
    closed_trips m.defaults key k mine lo ts (get_or_create m k) closed (v.closed_below closed)
      recent near enough)

-- A half-open circuit closes and forgets its failures after exactly as many successes as are missing to
-- the success threshold: after fewer it is still half-open. A failure that comes first, after any
-- number of successes below the missing ones, opens it again, at the time of the failure.
pub half_open_decides :
    (m : Manager) (key k : Text) (ts us : List ℕ) (now : ℕ)
    → let c = get_or_create m k in
      names key k ≡ true
      → Inv m.defaults c
      → c.state ≡ state_half_open
      → c.half_open_successes + length ts ≡ m.defaults.success_threshold
      → length us < length ts
      → (let c' = get_or_create (run m (reports_at key true ts)) k in
          (c'.state ≡ state_closed) × (c'.failures ≡ []))
        × ((get_or_create (run m (reports_at key true us)) k).state ≡ state_half_open)
        × OpenSince now
            (get_or_create (run m (reports_at key true us ++ reports key false now ∷ [])) k)
half_open_decides m key k ts us now mine v half e fewer = (
  rw get_or_create-run (
      half_open_closes m.defaults key k mine ts (get_or_create m k) half (v.half_open_below half)
        e),
  rw get_or_create-run
      (half_open_waits m.defaults key k mine us (get_or_create m k) half (omega arith)),
  rw get_or_create-run
      (half_open_reopens m.defaults key k mine us now (get_or_create m k) half (omega arith)),
)
