-- ===== src/Queue/Worker.antt =====
-- The queue runner of pkg/queue/consumer.go. Logger, metrics and the message's context get no result
-- back and are left out. What one round of a worker reads from outside stands in `Round`.
use chartly.Prelude.{
  ℕ, suc, ◌*◌, ◌^◌, Bool, false, ◌&&◌, Option, none, some, List, [], ◌∷◌, ◌⊎◌, inl, inr,
  if◌then◌else◌, ltb, leb,
}
use Prim.Native.Nat.{min, max}
use chartly.Prelude.Int.{ℤ, pos, negsuc, or_default}
use chartly.Prelude.Word.{mul64, signed_lt}
use chartly.Text.{Text, lit, is_empty, trim_space}
use chartly.Idempotency.Encode.{format_uint}
use chartly.Queue.{Envelope}
use chartly.Queue.Retry.{RetryDecision, at_least_zero, deterministic_jitter}

-- `retry` is the retry policy, or none for nil.
pub record RunnerOptions : Type 0 where
  pub queue : Text
  pub concurrency : ℤ
  pub poll_timeout : ℤ
  pub visibility_timeout : ℤ
  pub empty_backoff_min : ℤ
  pub empty_backoff_max : ℤ
  pub handler_timeout : ℤ
  pub max_consecutive_errors : ℤ
  pub retry : Option (Envelope → RetryDecision)

pub record Runner : Type 0 where
  pub queue : Text
  pub concurrency : ℕ
  pub poll_timeout : ℕ
  pub visibility_timeout : ℕ
  pub empty_backoff_min : ℕ
  pub empty_backoff_max : ℕ
  pub handler_timeout : ℤ
  pub max_consecutive_errors : ℤ
  pub retry : Envelope → RetryDecision

pub data RunnerError : Type 0 where
  consumer_nil handler_nil queue_required : RunnerError

abbrev pub retry_or :
    Option (Envelope → RetryDecision) → (Envelope → RetryDecision) → Envelope → RetryDecision
retry_or none default = default
retry_or (some retry) default = retry

-- `default` is the policy `DefaultRetryPolicy{}`.
abbrev pub settled_options : (Envelope → RetryDecision) → RunnerOptions → Runner
settled_options default o = record {
  queue = o.queue;
  concurrency = min (or_default o.concurrency 4) 256;
  poll_timeout = or_default o.poll_timeout (2 * 10 ^ 9);
  visibility_timeout = or_default o.visibility_timeout (30 * 10 ^ 9);
  empty_backoff_min = or_default o.empty_backoff_min (200 * 10 ^ 6);
  empty_backoff_max =
      max (or_default o.empty_backoff_max (5 * 10 ^ 9))
        (or_default o.empty_backoff_min (200 * 10 ^ 6));
  handler_timeout = o.handler_timeout;
  max_consecutive_errors = o.max_consecutive_errors;
  retry = retry_or o.retry default;
}

-- NewRunner, given whether the consumer and the handler are there.
unfoldable pub new_runner :
    (Envelope → RetryDecision) → Bool → Bool → RunnerOptions → RunnerError ⊎ Runner
unfolding trim_space
new_runner default has_consumer has_handler o =
    if has_consumer
    then if has_handler
      then if is_empty (trim_space o.queue)
        then inl queue_required
        else inr (settled_options default o)
      else inl handler_nil
    else inl consumer_nil

pub data Dequeued : Type 0 where
  empty failure : Dequeued
  delivered : Envelope → Text → Dequeued

-- Whether the context is done at the start and while the worker sleeps, what Dequeue gives, whether
-- the handler succeeds, whether the consumer takes the first Ack, Nack or NackWithDeadLetter, and
-- whether it has MoveToDLQ. The results of the calls after those are not read.
pub record Round : Type 0 where
  pub done : Bool
  pub done_asleep : Bool
  pub got : Dequeued
  pub handler_ok : Bool
  pub ack_ok : Bool
  pub nack_ok : Bool
  pub dlq_ok : Bool
  pub has_dead_letter : Bool

-- What a worker does, in its order.
pub data Action : Type 0 where
  sleep : ℕ → Action
  ack : Text → Action
  nack : Text → ℕ → Action
  nack_with_dead_letter : Text → ℕ → Text → Action
  move_to_dlq : Text → Text → Action

pub record WorkerState : Type 0 where
  pub backoff : ℕ
  pub consec_err : ℕ

pub data Verdict : Type 0 where
  loop : WorkerState → Verdict
  canceled too_many_errors : Verdict

abbrev pub Step : Type 0
Step = List Action × Verdict

unfoldable pub next_backoff : Runner → ℕ → ℕ
unfolding mul64 signed_lt
next_backoff r backoff =
    if signed_lt r.empty_backoff_max (mul64 backoff 2) then r.empty_backoff_max else mul64 backoff 2

abbrev pub reaches : ℕ → ℤ → Bool
reaches n (pos m) = ltb 0 m && leb m n
reaches n (negsuc m) = false

abbrev pub after_success : Round → Text → List Action
after_success round receipt =
    if round.ack_ok then ack receipt ∷ [] else ack receipt ∷ nack receipt (10 ^ 9) ∷ []

abbrev pub after_dead_letter : Round → Text → RetryDecision → List Action
after_dead_letter round receipt d =
    if round.dlq_ok
    then nack_with_dead_letter receipt d.delay d.reason ∷ []
    else if round.has_dead_letter
    then nack_with_dead_letter receipt d.delay d.reason ∷ move_to_dlq receipt d.reason ∷ []
    else nack_with_dead_letter receipt d.delay d.reason ∷ nack receipt d.delay ∷ []

abbrev pub after_retry : Round → Text → RetryDecision → List Action
after_retry round receipt d =
    if round.nack_ok then nack receipt d.delay ∷ [] else nack receipt d.delay ∷ ack receipt ∷ []

unfoldable pub settle_message : Runner → Round → Envelope → Text → List Action
settle_message r round env receipt =
    if round.handler_ok
    then after_success round receipt
    else if (r.retry env).to_dlq
    then after_dead_letter round receipt (r.retry env)
    else after_retry round receipt (r.retry env)

module _ (sha256 : List ℕ → List ℕ) (r : Runner) (worker_id : ℕ) where
  abbrev pub empty_parts : List Text
  empty_parts = lit "empty" ∷ r.queue ∷ format_uint worker_id ∷ []

  unfoldable pub after_dequeue : WorkerState → Round → Dequeued → Step
  unfolding next_backoff settle_message deterministic_jitter
  after_dequeue s round empty = (
    sleep (at_least_zero (deterministic_jitter sha256 s.backoff 20 empty_parts)) ∷ [],
    if round.done_asleep then canceled else loop (record s { backoff = next_backoff r s.backoff }),
  )
  after_dequeue s round failure =
      if reaches (suc s.consec_err) r.max_consecutive_errors then ([], too_many_errors) else (
        sleep (250 * 10 ^ 6) ∷ [],
        if round.done_asleep then canceled else loop (record s { consec_err = suc s.consec_err }),
      )
  after_dequeue s round (delivered env receipt) = (
    settle_message r round env receipt,
    loop (record { backoff = r.empty_backoff_min; consec_err = 0 }),
  )

  unfoldable pub worker_round : WorkerState → Round → Step
  unfolding after_dequeue
  worker_round s round = if round.done then ([], canceled) else after_dequeue s round round.got

  abbrev pub logged :
      Round → Step → (WorkerState → List (Round × List Action)) → List (Round × List Action)
  logged round (actions, loop s) rest = (round, actions) ∷ rest s
  logged round (actions, _) rest = (round, actions) ∷ []

  -- The rounds that the loop makes, with the actions of each; it ends where it returns.
  unfoldable pub worker_rounds : WorkerState → List Round → List (Round × List Action)
  unfolding worker_round
  worker_rounds s [] = []
  worker_rounds s (round ∷ rounds) =
      logged round (worker_round s round) (λ s'. worker_rounds s' rounds)

  unfoldable pub worker_loop : List Round → List (Round × List Action)
  unfolding worker_rounds
  worker_loop rounds =
      worker_rounds (record { backoff = r.empty_backoff_min; consec_err = 0 }) rounds
