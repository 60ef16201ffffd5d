-- ===== src/Circuit/Isolation.antt =====
-- The manager as a family of circuits that do not touch one another.
use chartly.Prelude.{
  ℕ, ◌≡◌, refl, Bool, true, false, not, ◌&&◌, List, [], ◌∷◌, arith, if◌then◌else◌, Bool-cases, inl,
  inr, ◌∙◌,
}
use mathlib.Core.Path.{ap₂}
use chartly.Text.{Text, text_eq, is_empty}
use chartly.Text.Laws.{text_eq_iff}
use chartly.Dict.{lookup-insert}
use chartly.Circuit.{
  Circuit, Defaults, Manager, norm_key, put, get_or_create, prune_locked, allow_circuit, allow_key,
  allow, report_circuit, report_key, report, snapshot, do_call, Call, allows, reports, snapshots,
  does, step, run,
}

-- Whether a call for `key` is about the circuit `k`.
abbrev pub names : Text → Text → Bool
names key k = not (is_empty (norm_key key)) && text_eq (norm_key key) k

-- What `Do` does to its circuit.
unfoldable pub do_circuit : Defaults → Circuit → ℕ → Bool → Bool → ℕ → Circuit
do_circuit d c now ctx_done b later =
    let (c', v) = allow_circuit c.state d c now in
    if v.ok then if ctx_done then c' else report_circuit c'.state b d c' later else c'

-- One circuit on its own, under the calls of the whole manager.
unfoldable pub circuit_step : Defaults → Text → Circuit → Call → Circuit
unfolding do_circuit
circuit_step d k c (allows key now) = if names key k then (allow_circuit c.state d c now).0 else c
circuit_step d k c (reports key b now) = if names key k then report_circuit c.state b d c now else c
circuit_step d k c (snapshots key now) =
    if text_eq (norm_key key) k then prune_locked d c now else c
circuit_step d k c (does key now ctx_done b later) =
    if names key k then do_circuit d c now ctx_done b later else c

unfoldable pub circuit_run : Defaults → Text → Circuit → List Call → Circuit
circuit_run d k c [] = c
circuit_run d k c (x ∷ xs) = circuit_run d k (circuit_step d k c x) xs

pub get_or_create-put :
    (m : Manager) (j k : Text) (c : Circuit)
    → get_or_create (put m j c) k ≡ (if text_eq j k then c else get_or_create m k)
unfolding get_or_create
get_or_create-put m j k c = ground (arith, lookup-insert j k c m.per_key)

same_key : (m : Manager) (j k : Text) → text_eq j k ≡ true → get_or_create m j ≡ get_or_create m k
same_key m j k h = rw ((text_eq_iff j k).0 h)

pub get_or_create-allow :
    (m : Manager) (key k : Text) (now : ℕ)
    → let c = get_or_create m k in
      get_or_create (allow m key now).0 k
      ≡ (if names key k then (allow_circuit c.state m.defaults c now).0 else c)
unfolding allow
get_or_create-allow m key k now = go (is_empty (norm_key key))
  where
    go :
        (e : Bool)
        → let c = get_or_create m k in
          get_or_create (allow_key e m (norm_key key) now).0 k ≡ (
            if not e && text_eq (norm_key key) k
            then (allow_circuit c.state m.defaults c now).0
            else c)
    go true = refl
    go false =
        rw (get_or_create-put m (norm_key key) k _) (elim (Bool-cases (text_eq (norm_key key) k)) [
          | inl h ↦ rw (h, same_key m (norm_key key) k h)
          | inr h ↦ rw h
        ])

pub get_or_create-report :
    (m : Manager) (key k : Text) (b : Bool) (now : ℕ)
    → let c = get_or_create m k in
      get_or_create (report m key b now) k
      ≡ (if names key k then report_circuit c.state b m.defaults c now else c)
unfolding report
get_or_create-report m key k b now = go (is_empty (norm_key key))
  where
    go :
        (e : Bool)
        → let c = get_or_create m k in
          get_or_create (report_key e m (norm_key key) b now) k ≡ (
            if not e && text_eq (norm_key key) k
            then report_circuit c.state b m.defaults c now
            else c)
    go true = refl
    go false =
        rw (get_or_create-put m (norm_key key) k _) (elim (Bool-cases (text_eq (norm_key key) k)) [
          | inl h ↦ rw (h, same_key m (norm_key key) k h)
          | inr h ↦ rw h
        ])

get_or_create-snapshot :
    (m : Manager) (key k : Text) (now : ℕ)
    → let c = get_or_create m k in
      get_or_create (snapshot m key now).0 k
      ≡ (if text_eq (norm_key key) k then prune_locked m.defaults c now else c)
unfolding snapshot
get_or_create-snapshot m key k now =
    rw (get_or_create-put m (norm_key key) k _) (elim (Bool-cases (text_eq (norm_key key) k)) [
      | inl h ↦ rw (h, same_key m (norm_key key) k h)
      | inr h ↦ rw h
    ])

pub verdict-allow :
    (m : Manager) (key k : Text) (now : ℕ)
    → names key k ≡ true
    → let c = get_or_create m k in (allow m key now).1 ≡ (allow_circuit c.state m.defaults c now).1
unfolding allow allow_key
verdict-allow m key k now h = ground (arith, same_key m (norm_key key) k)

pub defaults-step : (m : Manager) (c : Call) → (step m c).defaults ≡ m.defaults
unfolding step allow allow_key report report_key snapshot do_call
defaults-step m (allows key now) = ground arith
defaults-step m (reports key b now) = ground arith
defaults-step m (snapshots key now) = ground arith
defaults-step m (does key now ctx_done b later) = ground arith

defaults-allow : (m : Manager) (key : Text) (now : ℕ) → (allow m key now).0.defaults ≡ m.defaults
unfolding allow allow_key
defaults-allow m key now = ground arith

-- A call whose verdict is not about `k` leaves `k`, allowed or not.
get_or_create-do_call :
    (m : Manager) (key k : Text) (now : ℕ) (ctx_done b : Bool) (later : ℕ)
    → let c = get_or_create m k in
      get_or_create (do_call m key now ctx_done b later).0 k
      ≡ (if names key k then do_circuit m.defaults c now ctx_done b later else c)
unfolding do_call do_circuit
get_or_create-do_call m key k now ctx_done b later = ground (
  arith,
  get_or_create-allow m key k now,
  get_or_create-report (allow m key now).0 key k b later,
  verdict-allow m key k now,
  defaults-allow m key now,
)

pub get_or_create-step :
    (m : Manager) (k : Text) (x : Call)
    → get_or_create (step m x) k ≡ circuit_step m.defaults k (get_or_create m k) x
unfolding step circuit_step
get_or_create-step m k (allows key now) = get_or_create-allow m key k now
get_or_create-step m k (reports key b now) = get_or_create-report m key k b now
get_or_create-step m k (snapshots key now) = get_or_create-snapshot m key k now
get_or_create-step m k (does key now ctx_done b later) =
    get_or_create-do_call m key k now ctx_done b later

pub defaults-run : (m : Manager) (xs : List Call) → (run m xs).defaults ≡ m.defaults
unfolding run
defaults-run m [] = refl
defaults-run m (x ∷ xs) = defaults-run (step m x) xs ∙ defaults-step m x

-- The manager refines a family of independent circuits: after any calls, the circuit of a key is
-- what that circuit becomes on its own, by the calls whose normalised key is that key, in order.
pub get_or_create-run :
    (m : Manager) (k : Text) (xs : List Call)
    → get_or_create (run m xs) k ≡ circuit_run m.defaults k (get_or_create m k) xs
unfolding run circuit_run
get_or_create-run m k [] = refl
get_or_create-run m k (x ∷ xs) =
    get_or_create-run (step m x) k xs
    ∙ ap₂ (λ d c. circuit_run d k c xs) (defaults-step m x) (get_or_create-step m k x)
