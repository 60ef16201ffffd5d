-- ===== src/Pool/Accounts.antt =====
-- The counters of the connection pool against its channel and the calls in progress, under every
-- interleaving.
use chartly.Prelude.{
  ℕ, zero, suc, ◌+◌, ◌%◌, ◌^◌, ◌≤◌, ◌<◌, ◌≡◌, refl, List, [], ◌∷◌, arith, if◌then◌else◌, length,
  length-append, Bool-cases, inl, inr,
}
use chartly.Pool.{Settings, Pooled, Pool, up, down, int_lt}
use chartly.Pool.Step.{
  Next, finish, scan, warm, Call, polling, creating, waiting, taken, counted, checking, discarding,
  discarded, leaving, reserving, building, failing, built, naming, holding, releasing, released,
  offering, putting, closing, offered, closed_one, warming, warmed, counting, allocating, scanning,
  reaped, judging, draining, drained, stop_total, stop_idle, done, Answer, Moved, receive, send,
  move,
}

-- The units of `total` that a call answers for.
abbrev pub live : Call → ℕ
live (taken it) = 1
live (counted it) = 1
live (checking it) = 1
live (discarding it) = 1
live discarded = 1
live building = 1
live failing = 1
live built = 1
live naming = 1
live (holding it) = 1
live (releasing it h) = 1
live (released it h) = 1
live (offering it h) = 1
live (putting it k) = 1
live (closing it k) = 1
live (closed_one k) = 1
live (counting n) = 1
live (allocating n) = 1
live (reaped it n) = 1
live (judging it n) = 1
live (drained it) = 1
live stop_total = 1
live _ = 0

-- The units of `in_use`.
abbrev pub uses : Call → ℕ
uses (checking it) = 1
uses (discarding it) = 1
uses discarded = 1
uses leaving = 1
uses (holding it) = 1
uses (releasing it h) = 1
uses _ = 0

-- Sends and receives that `idle` does not count yet.
abbrev pub sent : Call → ℕ
sent (offered k) = 1
sent _ = 0

abbrev pub received : Call → ℕ
received (taken it) = 1
received (reaped it n) = 1
received (drained it) = 1
received stop_total = 1
received stop_idle = 1
received _ = 0

-- Resources that `created` counts and `closed_count` does not.
abbrev pub open_by : Call → ℕ
open_by (taken it) = 1
open_by (counted it) = 1
open_by (checking it) = 1
open_by (discarding it) = 1
open_by naming = 1
open_by (holding it) = 1
open_by (releasing it h) = 1
open_by (released it h) = 1
open_by (offering it h) = 1
open_by (putting it k) = 1
open_by (closing it k) = 1
open_by (allocating n) = 1
open_by (reaped it n) = 1
open_by (judging it n) = 1
open_by (drained it) = 1
open_by _ = 0

-- How often Start will still add to `total`.
abbrev pub left_of : Next → ℕ
left_of (warm n) = n
left_of _ = 0

abbrev pub to_warm : Call → ℕ
to_warm (warming n) = n
to_warm (warmed n) = suc n
to_warm (counting n) = n
to_warm (allocating n) = n
to_warm (putting it k) = left_of k
to_warm (offered k) = left_of k
to_warm (closing it k) = left_of k
to_warm (closed_one k) = left_of k
to_warm _ = 0

abbrev pub unstarted : Pool → ℕ
unstarted p = if p.started then 0 else p.cfg.min_size

-- A reservation of a slot that is not there.
abbrev pub stale : Settings → Call → ℕ
stale cfg (reserving seen) = if int_lt seen cfg.max_size then 0 else 1
stale cfg _ = 0

pub record Accounts (p : Pool) (l u s r o t x : ℕ) : Type 0 where
  pub fits : p.cfg.max_size + p.cfg.min_size < 2 ^ 63
  pub within : length p.ch ≤ p.cfg.max_size
  pub total_counts : p.total ≡ length p.ch + l
  pub room : p.total + (t + unstarted p) ≤ p.cfg.max_size + p.cfg.min_size
  pub warm_room : t + unstarted p ≤ p.cfg.min_size
  pub in_use_counts : p.in_use ≡ u % 2 ^ 64
  pub idle_counts : (p.idle + s) % 2 ^ 64 ≡ (length p.ch + r) % 2 ^ 64
  pub created_counts : p.created ≡ (p.closed_count + (length p.ch + o)) % 2 ^ 64
  pub idle_word : p.idle < 2 ^ 64
  pub none_stale : x ≡ 0

-- One action, whatever the other calls account for.
abbrev pub Kept : Moved → ℕ → ℕ → ℕ → ℕ → ℕ → ℕ → ℕ → Type 0
Kept (c, p) l u s r o t x =
    Accounts p (l + live c) (u + uses c) (s + sent c) (r + received c) (o + open_by c)
      (t + to_warm c) (x + stale p.cfg c)

receive-Kept :
    (p : Pool) (xs : List Pooled) (none_there : Call) (k : Pooled → Call) (l u s r o t x : ℕ)
    → p.ch ≡ xs
    → Kept (none_there, p) l u s r o t x
    → ((it : Pooled) (rest : List Pooled)
        → p.ch ≡ it ∷ rest
        → Kept (k it, record p { ch = rest }) l u s r o t x)
    → Kept (receive p xs none_there k) l u s r o t x
receive-Kept p [] none_there k l u s r o t x e h found = h
receive-Kept p (it ∷ rest) none_there k l u s r o t x e h found = found it rest e

send-Kept :
    (p : Pool) (it : Pooled) (k : Next) (l u s r o t x : ℕ)
    → Kept (putting it k, p) l u s r o t x
    → Kept (send p it k) l u s r o t x
send-Kept p it k l u s r o t x h = ground (arith, length-append p.ch (it ∷ []))

pub move-Accounts :
    (a : Answer) (c : Call) (p : Pool) (l u s r o t x : ℕ)
    → Kept (c, p) l u s r o t x
    → Kept (move a c p) l u s r o t x
unfolding move up down int_lt
move-Accounts a (warming zero) p l u s r o t x h = ground arith
move-Accounts a (warming (suc n)) p l u s r o t x h = ground arith
move-Accounts a (scanning zero) p l u s r o t x h = ground arith
move-Accounts a (scanning (suc n)) p l u s r o t x h =
    receive-Kept p p.ch done (λ it. reaped it n) l u s r o t x refl (ground arith)
      (λ it rest e. ground (arith, e))
move-Accounts a polling p l u s r o t x h =
    receive-Kept p p.ch creating taken l u s r o t x refl (ground arith)
      (λ it rest e. ground (arith, e))
move-Accounts a waiting p l u s r o t x h = elim (Bool-cases a.late) [
  | inl late ↦ rw late (ground arith)
  | inr waits ↦
      rw waits
        (receive-Kept p p.ch waiting taken l u s r o t x refl h (λ it rest e. ground (arith, e)))
]
move-Accounts a draining p l u s r o t x h =
    receive-Kept p p.ch done drained l u s r o t x refl (ground arith)
      (λ it rest e. ground (arith, e))
move-Accounts a (putting it k) p l u s r o t x h = send-Kept p it k l u s r o t x h
move-Accounts a (offered finish) p l u s r o t x h = ground arith
move-Accounts a (offered (scan n)) p l u s r o t x h = ground arith
move-Accounts a (offered (warm n)) p l u s r o t x h = ground arith
move-Accounts a (closed_one finish) p l u s r o t x h = ground arith
move-Accounts a (closed_one (scan n)) p l u s r o t x h = ground arith
move-Accounts a (closed_one (warm n)) p l u s r o t x h = ground arith
move-Accounts a _ p l u s r o t x h = ground arith

receive-cfg :
    (p : Pool) (xs : List Pooled) (none_there : Call) (k : Pooled → Call)
    → (receive p xs none_there k).1.cfg ≡ p.cfg
receive-cfg p [] none_there k = refl
receive-cfg p (it ∷ rest) none_there k = refl

pub move-cfg : (a : Answer) (c : Call) (p : Pool) → (move a c p).1.cfg ≡ p.cfg
unfolding move
move-cfg a (warming zero) p = refl
move-cfg a (warming (suc n)) p = ground arith
move-cfg a (scanning zero) p = refl
move-cfg a (scanning (suc n)) p = receive-cfg p p.ch done (λ it. reaped it n)
move-cfg a polling p = receive-cfg p p.ch creating taken
move-cfg a draining p = receive-cfg p p.ch done drained
move-cfg a waiting p = elim (Bool-cases a.late) [
  | inl late ↦ rw late refl
  | inr waits ↦ rw waits (receive-cfg p p.ch waiting taken)
]
move-cfg a _ p = ground arith
