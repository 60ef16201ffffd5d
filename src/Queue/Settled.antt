-- ===== src/Queue/Settled.antt =====
-- What becomes of the messages that a worker of pkg/queue/consumer.go takes.
use chartly.Prelude.{
  ℕ, ◌≡◌, Bool, true, false, not, ◌&&◌, ◌*◌, ◌^◌, List, [], ◌∷◌, ◌⊎◌, if◌then◌else◌,
}
use chartly.Text.{Text, text_eq}
use chartly.Queue.{Envelope}
use chartly.Queue.Worker.{
  Runner, Dequeued, empty, failure, delivered, Round, Action, sleep, ack, nack,
  nack_with_dead_letter, move_to_dlq, WorkerState, loop, Step,
}

-- What the queue makes of a message: it is gone, is to come back after a delay, lies with the dead
-- letters for a reason, or is still leased. `misused` stands for a call that no consumer may make: after
-- one that succeeded, or for another receipt.
pub data Fate : Type 0 where
  gone leased misused : Fate
  comes_back : ℕ → Fate
  dead_letter : Text → Fate

abbrev pub receipt_of : Action → Text
receipt_of (sleep d) = []
receipt_of (ack r) = r
receipt_of (nack r d) = r
receipt_of (nack_with_dead_letter r d why) = r
receipt_of (move_to_dlq r why) = r

-- What a call that succeeds makes of the message.
abbrev pub effect : Action → Fate
effect (sleep d) = misused
effect (ack r) = gone
effect (nack r d) = comes_back d
effect (nack_with_dead_letter r d why) = dead_letter why
effect (move_to_dlq r why) = dead_letter why

-- Whether the queue takes the first call, given the round.
abbrev pub is_taken : Round → Action → Bool
is_taken round (sleep d) = false
is_taken round (ack r) = round.ack_ok
is_taken round (nack r d) = round.nack_ok
is_taken round (nack_with_dead_letter r d why) = round.dlq_ok
is_taken round (move_to_dlq r why) = false

abbrev pub last_call : Text → Bool → Action → List Action → Fate
last_call receipt later a [] =
    if text_eq (receipt_of a) receipt then if later then effect a else leased else misused
last_call receipt later a (b ∷ rest) = misused

-- The queue's view of the calls for a message; `later` says whether it takes a second call.
unfoldable pub fate : Round → Text → Bool → List Action → Fate
unfolding text_eq
fate round receipt later [] = leased
fate round receipt later (a ∷ []) =
    if text_eq (receipt_of a) receipt
    then if is_taken round a then effect a else leased
    else misused
fate round receipt later (a ∷ b ∷ rest) =
    if text_eq (receipt_of a) receipt && not (is_taken round a)
    then last_call receipt later b rest
    else misused

abbrev pub or_else : Bool → Bool → Fate → Fate → Fate
or_else first second a b = if first then a else if second then b else leased

-- What is to become of a message: after a success it is gone, or comes back in a second; after a failure
-- the retry policy sends it to the dead letters, or else back after its delay.
unfoldable pub intended : Runner → Round → Envelope → Bool → Fate
intended r round env later =
    if round.handler_ok
    then or_else round.ack_ok later gone (comes_back (10 ^ 9))
    else if (r.retry env).to_dlq
    then or_else round.dlq_ok later (dead_letter (r.retry env).reason) (
        if round.has_dead_letter
        then dead_letter (r.retry env).reason
        else comes_back (r.retry env).delay)
    else or_else round.nack_ok later (comes_back (r.retry env).delay) gone

-- What a round does for what it got.
abbrev pub Settles : Runner → Round → Dequeued → List Action → Type 0
Settles r round (delivered env receipt) actions =
    (later : Bool) → fate round receipt later actions ≡ intended r round env later
Settles r round empty actions = (d : ℕ) × (actions ≡ sleep d ∷ [])
Settles r round failure actions = (actions ≡ []) ⊎ (actions ≡ sleep (250 * 10 ^ 6) ∷ [])

-- A round of the loop, given whether the context is done: then it makes no call.
abbrev pub Obeys : Runner → Round → Bool → List Action → Type 0
Obeys r round true actions = actions ≡ []
Obeys r round false actions = Settles r round round.got actions

-- Whether the loop may return after a round, given what it got.
abbrev pub MayReturn : Round → Dequeued → Type 0
MayReturn round empty = round.done_asleep ≡ true
MayReturn round failure = Unit
MayReturn round (delivered env receipt) = ⊥

-- The log of a run on these rounds: it has a round after the other, until the loop returns.
abbrev pub Follows : Runner → List Round → List (Round × List Action) → Type 0
Follows r [] log = log ≡ []
Follows r (round ∷ rounds) [] = ⊥
Follows r (round ∷ rounds) ((logged_round, actions) ∷ log) =
    (logged_round ≡ round)
    × Obeys r round round.done actions
    × (Follows r rounds log ⊎ (((round.done ≡ true) ⊎ MayReturn round round.got) × (log ≡ [])))

module _ (sha256 : List ℕ → List ℕ) (r : Runner) (worker_id : ℕ) where
  Goes : Round → Step → Type 0
  Goes round step =
      Obeys r round round.done step.0
      × (((s : WorkerState) × (step.1 ≡ loop s))
          ⊎ ((round.done ≡ true) ⊎ MayReturn round round.got))
