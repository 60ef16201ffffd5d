-- ===== src/Pool/Owners.antt =====
-- Who has which resource of the connection pool, along a run of
-- services/connector-hub/internal/pool/connection_pool.go.
use chartly.Prelude.{
  ℕ, zero, suc, ◌+◌, ◌≤◌, ◌≡◌, ◌≢◌, refl, some, List, [], ◌∷◌, arith, if◌then◌else◌, ◌==◌,
  get_elem?, sum_by, rest_by, sum_by-rest_by, sum_by-set, sum_by-append_one, sum_by_two,
  Option-cases, Bool-cases, inl, inr,
}
use chartly.Pool.{Settings, Pooled, Pool, new_pool}
use chartly.Pool.Step.{
  Next, finish, scan, warm, Call, polling, creating, waiting, taken, counted, checking, discarding,
  holding, releasing, released, offering, putting, closing, offered, closed_one, warming, scanning,
  reaped, judging, draining, drained, done, Answer, Moved, receive, send, move,
}
use chartly.Pool.Run.{
  Method, acquire, start, reap_once, stop, World, Event, begin, act, step, run, entry,
}
use chartly.Pool.Balance.{world}

abbrev pub is_named : ℕ → Pooled → ℕ
is_named k it = if it.id == k then 1 else 0

-- Whether a call has the resource with an address.
abbrev pub has : ℕ → Call → ℕ
has k (taken it) = is_named k it
has k (counted it) = is_named k it
has k (checking it) = is_named k it
has k (discarding it) = is_named k it
has k (holding it) = is_named k it
has k (releasing it h) = is_named k it
has k (released it h) = is_named k it
has k (offering it h) = is_named k it
has k (putting it next) = is_named k it
has k (closing it next) = is_named k it
has k (reaped it n) = is_named k it
has k (judging it n) = is_named k it
has k (drained it) = is_named k it
has k _ = 0

-- An address stands at one place at most, and at none before it is allocated.
pub record Single (k : ℕ) (p : Pool) (n : ℕ) : Type 0 where
  pub once : sum_by (is_named k) p.ch + n ≤ 1
  pub unallocated : p.next_id ≤ k → sum_by (is_named k) p.ch + n ≡ 0

abbrev Kept : ℕ → Moved → ℕ → Type 0
Kept k (c, p) n = Single k p (n + has k c)

module _ (k : ℕ) where
  receive-Kept :
      (p : Pool) (xs : List Pooled) (none_there : Call) (next : Pooled → Call) (n : ℕ)
      → p.ch ≡ xs
      → Kept k (none_there, p) n
      → ((it : Pooled) (rest : List Pooled)
          → p.ch ≡ it ∷ rest
          → Kept k (next it, record p { ch = rest }) n)
      → Kept k (receive p xs none_there next) n
  receive-Kept p [] none_there next n e h found = h
  receive-Kept p (it ∷ rest) none_there next n e h found = found it rest e

  send-Kept :
      (p : Pool) (it : Pooled) (next : Next) (n : ℕ)
      → Kept k (putting it next, p) n
      → Kept k (send p it next) n
  send-Kept p it next n h = ground (arith, sum_by-append_one (is_named k) p.ch it)

  move-Kept : (a : Answer) (c : Call) (p : Pool) (n : ℕ) → Kept k (c, p) n → Kept k (move a c p) n
  unfolding move
  move-Kept a (warming zero) p n h = h
  move-Kept a (warming (suc m)) p n h = ground arith
  move-Kept a (scanning zero) p n h = h
  move-Kept a (scanning (suc m)) p n h =
      receive-Kept p p.ch done (λ it. reaped it m) n refl h (λ it rest e. ground (arith, e))
  move-Kept a polling p n h =
      receive-Kept p p.ch creating taken n refl h (λ it rest e. ground (arith, e))
  move-Kept a draining p n h =
      receive-Kept p p.ch done drained n refl h (λ it rest e. ground (arith, e))
  move-Kept a waiting p n h = elim (Bool-cases a.late) [
    | inl late ↦ rw late h
    | inr waits ↦
        rw waits (receive-Kept p p.ch waiting taken n refl h (λ it rest e. ground (arith, e)))
  ]
  move-Kept a (putting it next) p n h = send-Kept p it next n h
  move-Kept a (offered finish) p n h = ground arith
  move-Kept a (offered (scan m)) p n h = ground arith
  move-Kept a (offered (warm m)) p n h = ground arith
  move-Kept a (closed_one finish) p n h = ground arith
  move-Kept a (closed_one (scan m)) p n h = ground arith
  move-Kept a (closed_one (warm m)) p n h = ground arith
  move-Kept a _ p n h = ground arith

  abbrev AllSingle : World → Type 0
  AllSingle w = Single k w.pool (sum_by (has k) w.calls)

  entry_idle : (m : Method) → has k (entry m) ≡ 0
  entry_idle acquire = refl
  entry_idle start = refl
  entry_idle reap_once = refl
  entry_idle stop = refl

  step-AllSingle : (e : Event) (w : World) → AllSingle w → AllSingle (step e w)
  unfolding step
  step-AllSingle (begin m) w h =
      rw (sum_by-append_one (has k) w.calls (entry m)) (ground (arith, entry_idle m))
  step-AllSingle (act i a) w h = elim (Option-cases (get_elem? w.calls i)) [
    | inl missing ↦ rw missing h
    | inr (c, found) ↦ rw found (
        rw (sum_by-set (has k) w.calls i c (move a c w.pool).0 found) (
          move-Kept a c w.pool (rest_by (has k) w.calls i)
            (rw (← sum_by-rest_by (has k) w.calls i c found) h)))
  ]

  run-AllSingle : (es : List Event) (w : World) → AllSingle w → AllSingle (run es w)
  unfolding run
  run-AllSingle [] w h = h
  run-AllSingle (e ∷ es) w h = run-AllSingle es (step e w) (step-AllSingle e w h)

  world-AllSingle : (cfg : Settings) → AllSingle (world cfg)
  unfolding new_pool
  world-AllSingle cfg = ground arith

-- A resource has one owner: in every interleaving of the pool's methods, two calls of Acquire that have
-- returned a resource and not released it have two different ones, and neither is in the channel.
pub one_owner :
    (cfg : Settings) (es : List Event) (i j : ℕ) (it it' : Pooled)
    → i ≢ j
    → get_elem? (run es (world cfg)).calls i ≡ some (holding it)
    → get_elem? (run es (world cfg)).calls j ≡ some (holding it')
    → (it.id ≢ it'.id) × (sum_by (is_named it.id) (run es (world cfg)).pool.ch ≡ 0)
one_owner cfg es i j it it' ne h h' =
    let w = run es (world cfg) in
    let s = run-AllSingle it.id es (world cfg) (world-AllSingle it.id cfg) in
    let two = sum_by_two (has it.id) w.calls i j (holding it) (holding it') ne h h' in
    (λ e. ground (arith, s.once, two, e), ground (arith, s.once, two))
