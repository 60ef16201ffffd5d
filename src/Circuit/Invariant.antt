-- ===== src/Circuit/Invariant.antt =====
-- What holds of every circuit between two calls, whatever the clock shows.
use chartly.Prelude.{
  ℕ, ◌-◌, ◌*◌, ◌≤◌, ◌<◌, ◌≡◌, ◌≢◌, refl, Bool, true, false, Bool-cases, inl, inr, Option, none,
  some, List, [], ◌∷◌, arith, length,
}
use chartly.Prelude.Int.{or_default-pos}
use chartly.Text.{Text, is_empty}
use chartly.Dict.{lookup, lookup-insert}
use chartly.Circuit.{
  state_closed, state_half_open, CircuitConfig, Circuit, Defaults, Manager, second, new_manager,
  norm_key, new_circuit, or_new, put, drop_before, prune_locked, allow_circuit, allow, allow_key,
  report_circuit, report_key, report, snapshot, do_call, get_or_create, Call, allows, reports,
  snapshots, does, step, run,
}

pub record Inv (d : Defaults) (c : Circuit) : Type 0 where
  pub closed_below : c.state ≡ state_closed → length c.failures < d.failure_threshold
  pub half_open_below : c.state ≡ state_half_open → c.half_open_successes < d.success_threshold
  pub idle_zero : c.state ≢ state_half_open → c.half_open_successes ≡ 0

pub record IsPositive (d : Defaults) : Type 0 where
  pub failure : 0 < d.failure_threshold
  pub success : 0 < d.success_threshold
  pub timeout : 0 < d.open_timeout
  pub span : 0 < d.window

pub record IsSound (m : Manager) : Type 0 where
  pub positive : IsPositive m.defaults
  pub each : (k : Text) (c : Circuit) → lookup k m.per_key ≡ some c → Inv m.defaults c

pub length-drop_before : (cut : ℕ) (ts : List ℕ) → length (drop_before cut ts) ≤ length ts
unfolding drop_before
length-drop_before cut [] = omega arith
length-drop_before cut (t ∷ ts) = ground (arith, length-drop_before cut ts)

new_circuit-Inv : (d : Defaults) → IsPositive d → Inv d new_circuit
new_circuit-Inv d p = ground arith

prune_locked-Inv : (d : Defaults) (c : Circuit) (now : ℕ) → Inv d c → Inv d (prune_locked d c now)
unfolding prune_locked
prune_locked-Inv d c now v = ground (arith, length-drop_before (now - d.window) c.failures)

allow_circuit-Inv :
    (d : Defaults) (c : Circuit) (now : ℕ)
    → IsPositive d
    → Inv d c
    → Inv d (allow_circuit c.state d c now).0
unfolding allow_circuit
allow_circuit-Inv d c now p v = ground arith

report_circuit-Inv :
    (d : Defaults) (c : Circuit) (success : Bool) (now : ℕ)
    → IsPositive d
    → Inv d c
    → Inv d (report_circuit c.state success d c now)
unfolding report_circuit
report_circuit-Inv d c true now p v = ground (arith, length-drop_before (now - d.window) c.failures)
report_circuit-Inv d c false now p v = ground arith

put-IsSound :
    (m : Manager) (k : Text) (c : Circuit) → IsSound m → Inv m.defaults c → IsSound (put m k c)
put-IsSound m k c s v = record {
  positive = s.positive;
  each = λ j x e. ground (arith, lookup-insert k j c m.per_key, s.each j x);
}

get_or_create-Inv : (m : Manager) (k : Text) → IsSound m → Inv m.defaults (get_or_create m k)
unfolding get_or_create
get_or_create-Inv m k s = go (lookup k m.per_key) (s.each k)
  where
    go :
        (o : Option Circuit)
        → ((c : Circuit) → o ≡ some c → Inv m.defaults c)
        → Inv m.defaults (or_new o)
    go none h = new_circuit-Inv m.defaults s.positive
    go (some c) h = h c refl

pub new_manager-IsSound : (c : CircuitConfig) → IsSound (new_manager c)
unfolding new_manager lookup
new_manager-IsSound c = record {
  positive = record {
    failure = or_default-pos c.failure_threshold 5 (omega arith);
    success = or_default-pos c.success_threshold 2 (omega arith);
    timeout = or_default-pos c.open_timeout (30 * second) (omega arith);
    span = or_default-pos c.window (60 * second) (omega arith);
  };
  each = λ k x e. cc;
}

pub allow-IsSound : (m : Manager) (key : Text) (now : ℕ) → IsSound m → IsSound (allow m key now).0
unfolding allow
allow-IsSound m key now s = go (is_empty (norm_key key))
  where
    go : (b : Bool) → IsSound (allow_key b m (norm_key key) now).0
    go true = s
    go false =
        put-IsSound m (norm_key key) _ s
          (allow_circuit-Inv m.defaults _ now s.positive (get_or_create-Inv m (norm_key key) s))

pub report-IsSound :
    (m : Manager) (key : Text) (success : Bool) (now : ℕ)
    → IsSound m
    → IsSound (report m key success now)
unfolding report
report-IsSound m key success now s = go (is_empty (norm_key key))
  where
    go : (b : Bool) → IsSound (report_key b m (norm_key key) success now)
    go true = s
    go false = put-IsSound m (norm_key key) _ s (
        report_circuit-Inv m.defaults _ success now s.positive
          (get_or_create-Inv m (norm_key key) s))

pub snapshot-IsSound :
    (m : Manager) (key : Text) (now : ℕ) → IsSound m → IsSound (snapshot m key now).0
unfolding snapshot
snapshot-IsSound m key now s =
    put-IsSound m (norm_key key) _ s
      (prune_locked-Inv m.defaults _ now (get_or_create-Inv m (norm_key key) s))

do_call-IsSound :
    (m : Manager) (key : Text) (now : ℕ) (ctx_done success : Bool) (later : ℕ)
    → IsSound m
    → IsSound (do_call m key now ctx_done success later).0
unfolding do_call
do_call-IsSound m key now ctx_done success later s = elim (Bool-cases (allow m key now).1.ok) [
  | inl e ↦ rw e (elim (Bool-cases ctx_done) [
    | inl h ↦ rw h (allow-IsSound m key now s)
    | inr h ↦ rw h (report-IsSound _ key success later (allow-IsSound m key now s))
  ])
  | inr e ↦ rw e (allow-IsSound m key now s)
]

pub step-IsSound : (m : Manager) (c : Call) → IsSound m → IsSound (step m c)
unfolding step
step-IsSound m (allows k now) s = allow-IsSound m k now s
step-IsSound m (reports k b now) s = report-IsSound m k b now s
step-IsSound m (snapshots k now) s = snapshot-IsSound m k now s
step-IsSound m (does k now ctx_done b later) s = do_call-IsSound m k now ctx_done b later s

run-IsSound : (m : Manager) (cs : List Call) → IsSound m → IsSound (run m cs)
unfolding run
run-IsSound m [] s = s
run-IsSound m (c ∷ cs) s = run-IsSound (step m c) cs (step-IsSound m c s)

-- Whatever the configuration, the calls and the clock, every circuit of the manager keeps its
-- invariant: closed with fewer failures than the failure threshold, half open with fewer
-- successes than the success threshold, and no successes counted in another state.
pub run-new_manager-IsSound :
    (c : CircuitConfig) (cs : List Call) → IsSound (run (new_manager c) cs)
run-new_manager-IsSound c cs = run-IsSound (new_manager c) cs (new_manager-IsSound c)
