-- ===== src/Pool/Step.antt =====
-- The atomic actions of the methods of services/connector-hub/internal/pool/connection_pool.go. A
-- call in progress is the point that it has reached; its next action reads and writes the shared
-- state once.
use chartly.Prelude.{
  ℕ, zero, suc, Bool, true, not, ◌&&◌, ◌||◌, List, [], ◌∷◌, ◌++◌, if◌then◌else◌, ltb, ◌==◌, length,
}
use chartly.Pool.{
  Settings, Pooled, Pool, PoolErr, acquire_timeout, pool_closed, factory_error, up, down, int_lt,
  is_expired,
}

-- Where a call goes on after it has closed a resource or put it into the channel.
pub data Next : Type 0 where
  finish : Next
  scan warm : ℕ → Next

pub data Call : Type 0 where
  -- Acquire
  entering polling creating loading waiting timing_out : Call
  taken counted checking discarding : Pooled → Call
  discarded leaving : Call
  reserving : ℕ → Call
  building failing built naming : Call
  holding : Pooled → Call
  -- the release function
  releasing released offering : Pooled → Bool → Call
  -- putting a resource into the channel, and closing it
  putting closing : Pooled → Next → Call
  offered closed_one : Next → Call
  -- Start
  starting : Call
  warming warmed counting allocating : ℕ → Call
  -- reapOnce
  reaping : Call
  scanning : ℕ → Call
  reaped judging : Pooled → ℕ → Call
  -- Stop
  stopping shutting draining : Call
  drained : Pooled → Call
  stop_total stop_idle : Call
  -- returned
  done : Call
  failed : PoolErr → Call

-- What the world around answers: the clock, whether the factory succeeds, whether the resource is
-- healthy, and whether the deadline of an Acquire is taken.
pub record Answer : Type 0 where
  pub now : ℕ
  pub factory_ok : Bool
  pub healthy : Bool
  pub late : Bool

abbrev pub goes_on : Next → Call
goes_on finish = done
goes_on (scan n) = scanning n
goes_on (warm n) = warming n

abbrev pub Moved : Type 0
Moved = Call × Pool

-- A receive that does not wait.
abbrev pub receive : Pool → List Pooled → Call → (Pooled → Call) → Moved
receive p [] none_there k = (none_there, p)
receive p (it ∷ rest) none_there k = (k it, record p { ch = rest })

-- A send that does not wait.
abbrev pub send : Pool → Pooled → Next → Moved
send p it k =
    if ltb (length p.ch) p.cfg.max_size
    then (offered k, record p { ch = p.ch ++ it ∷ [] })
    else (closing it k, p)

abbrev pub unfit : Settings → Answer → Pooled → Bool
unfit cfg a it = is_expired cfg a.now it || (cfg.has_health && not a.healthy)

abbrev pub fresh : Pool → Answer → Pooled
fresh p a = record { id = p.next_id; created = a.now; last_used = a.now }

abbrev pub allocated : Pool → Pool
allocated p = record p { next_id = suc p.next_id }

-- A slot is taken if `total` is still what was seen.
abbrev pub reserve : ℕ → Pool → Moved
reserve seen p = if p.total == seen then (building, record p { total = up seen }) else (creating, p)

abbrev pub release_used : Answer → Pooled → Bool → Pool → Moved
release_used a it healthy p =
    let used = record it { last_used = a.now } in
    if p.closed then (closing used finish, p) else (offering used healthy, p)

abbrev pub start_once : Pool → Moved
start_once p =
    if p.started then (done, p) else (warming p.cfg.min_size, record p { started = true })

abbrev pub warm_next : Answer → ℕ → Pool → Moved
warm_next a n p = if a.factory_ok then (warmed n, p) else (done, p)

abbrev pub reap_start : Pool → Moved
reap_start p = if p.closed then (done, p) else (scanning (length p.ch), p)

abbrev pub reap_judge : Answer → Pooled → ℕ → Pool → Moved
reap_judge a it n p =
    if is_expired p.cfg a.now it then (closing it (scan n), p) else (putting it (scan n), p)

abbrev pub stop_once : Pool → Moved
stop_once p = if p.stopped then (done, p) else (shutting, record p { stopped = true })

abbrev pub drain : Pool → Moved
drain p = receive p p.ch done drained

unfoldable pub move : Answer → Call → Pool → Moved
unfolding up down int_lt is_expired
move a entering p = if p.closed then (failed pool_closed, p) else (polling, p)
move a polling p = receive p p.ch creating taken
move a (taken it) p = (counted it, record p { idle = down p.idle })
move a (counted it) p = (checking it, record p { in_use = up p.in_use })
move a (checking it) p = if unfit p.cfg a it then (discarding it, p) else (holding it, p)
move a (discarding it) p = (discarded, record p { closed_count = up p.closed_count })
move a discarded p = (leaving, record p { total = down p.total })
move a leaving p = (creating, record p { in_use = down p.in_use })
move a creating p = if p.closed then (failed pool_closed, p) else (loading, p)
move a loading p = if int_lt p.total p.cfg.max_size then (reserving p.total, p) else (waiting, p)
move a (reserving seen) p = reserve seen p
move a building p = if a.factory_ok then (built, p) else (failing, p)
move a failing p = (failed factory_error, record p { total = down p.total })
move a built p = (naming, record p { created = up p.created })
move a naming p = (holding (fresh p a), record (allocated p) { in_use = up p.in_use })
move a waiting p = if a.late then (timing_out, p) else receive p p.ch waiting taken
move a timing_out p =
    (failed acquire_timeout, record p { acquire_timeouts = up p.acquire_timeouts })
move a (holding it) p = (releasing it a.healthy, p)
move a (releasing it healthy) p = (released it healthy, record p { in_use = down p.in_use })
move a (released it healthy) p = release_used a it healthy p
move a (offering it healthy) p = if healthy then (putting it finish, p) else (closing it finish, p)
move a (putting it k) p = send p it k
move a (offered k) p = (goes_on k, record p { idle = up p.idle })
move a (closing it k) p = (closed_one k, record p { closed_count = up p.closed_count })
move a (closed_one k) p = (goes_on k, record p { total = down p.total })
move a starting p = start_once p
move a (warming zero) p = (done, p)
move a (warming (suc n)) p = warm_next a n p
move a (warmed n) p = (counting n, record p { total = up p.total })
move a (counting n) p = (allocating n, record p { created = up p.created })
move a (allocating n) p = (putting (fresh p a) (warm n), allocated p)
move a reaping p = reap_start p
move a (scanning zero) p = (done, p)
move a (scanning (suc n)) p = receive p p.ch done (λ it. reaped it n)
move a (reaped it n) p = (judging it n, record p { idle = down p.idle })
move a (judging it n) p = reap_judge a it n p
move a stopping p = stop_once p
move a shutting p = (draining, record p { closed = true })
move a draining p = drain p
move a (drained it) p = (stop_total, record p { closed_count = up p.closed_count })
move a stop_total p = (stop_idle, record p { total = down p.total })
move a stop_idle p = (draining, record p { idle = down p.idle })
move a done p = (done, p)
move a (failed e) p = (failed e, p)
