-- ===== src/Queue/Tests.antt =====
-- Concrete envelopes, policies and rounds of a worker.
use chartly.Prelude.{
  ℕ, ◌*◌, ◌^◌, ◌/◌, ◌≤◌, ◌<◌, ◌≡◌, refl, true, false, none, some, List, [], ◌∷◌, ◌++◌, ◌⊎◌, inl,
  inr, arith,
}
use chartly.Prelude.Int.{pos, negsuc}
use chartly.Text.{lit, trim_space, to_lower, text_eq, text_lt}
use chartly.Text.Sort.{sort, place}
use chartly.Dict.{lookup, insert}
use chartly.Idempotency.Encode.{format_uint}
use chartly.Queue.{Envelope, normalize_envelope, normalize_pairs}
use chartly.Queue.Normalized.{IsNormal, normalize_envelope-IsNormal}
use chartly.Queue.Retry.{DefaultRetryPolicy, decide}
use chartly.Queue.Delays.{plain_delay, Near, decide_bounds}
use chartly.Queue.Worker.{
  Runner, settled_options, Round, Dequeued, empty, delivered, Action, sleep, ack, nack, worker_loop,
}
use chartly.Queue.Dlq.{DlqRecord, normalize_dlq_record}
use chartly.Queue.Dlq.Kept.{normalize_dlq_record-settled}

abbrev envelope : Envelope
envelope = record {
  queue = lit "q";
  id = lit "e1";
  type = lit " job ";
  tenant = lit "t";
  produced_at = 0;
  attempt = pos 1;
  visibility_deadline = 0;
  dedup_key = [];
  headers = some ((lit " Trace ", lit " x ") ∷ (lit " ", lit "y") ∷ []);
  payload_bytes = pos 0;
  payload = 1 ∷ 2 ∷ 3 ∷ [];
}

abbrev clean : Envelope
clean = record envelope {
  type = lit "job";
  headers = some ((lit "trace", lit "x") ∷ []);
  payload_bytes = pos 3;
}

cleaned : normalize_envelope envelope ≡ inr clean
unfolding normalize_envelope trim_space to_lower sort place text_lt text_eq insert lookup
cleaned = refl

normalize_envelope-IsNormal_example : IsNormal clean
normalize_envelope-IsNormal_example = normalize_envelope-IsNormal envelope clean cleaned

-- The digest of the tests.
abbrev digest : List ℕ → List ℕ
digest bytes = 7 ∷ []

abbrev policy : DefaultRetryPolicy
policy = record { max_attempts = pos 0; base_delay = pos 0; max_delay = pos 0; jitter_pct = pos 0 }

-- 7 modulo 41, less 20, is 13 per cent down.
policy_delay : (decide digest policy envelope).delay ≡ 500 * 10 ^ 6 * 87 / 100
unfolding decide format_uint
policy_delay = refl

decide_bounds_example :
    let r = decide digest policy envelope in
    ((r.to_dlq ≡ true) × (10 ≤ 1))
    ⊎ ((r.to_dlq ≡ false) × (1 < 10) × Near (plain_delay (250 * 10 ^ 6) (30 * 10 ^ 9) 1) 20 r.delay)
decide_bounds_example = decide_bounds digest policy envelope (omega arith) (omega arith)

-- With a base of three hours the product overflows, and the delay is zero instead of the maximum.
abbrev slow : DefaultRetryPolicy
slow = record {
  max_attempts = pos 30;
  base_delay = pos (3 * 3600 * 10 ^ 9);
  max_delay = pos (24 * 3600 * 10 ^ 9);
  jitter_pct = pos 20;
}

slow_overflows : (decide digest slow (record envelope { attempt = pos 20 })).delay ≡ 0
unfolding decide format_uint
slow_overflows = refl

abbrev runner : Runner
runner = settled_options (decide digest policy) (record {
  queue = lit "q";
  concurrency = pos 1;
  poll_timeout = pos 0;
  visibility_timeout = pos 0;
  empty_backoff_min = pos 1000;
  empty_backoff_max = pos 3000;
  handler_timeout = pos 0;
  max_consecutive_errors = pos 0;
  retry = none;
})

abbrev round : Dequeued → Round
round got = record {
  done = false;
  done_asleep = false;
  got = got;
  handler_ok = true;
  ack_ok = true;
  nack_ok = true;
  dlq_ok = true;
  has_dead_letter = false;
}

-- Three empty polls, a message, and one whose handler and Nack fail.
abbrev rounds : List Round
rounds =
    round empty
    ∷ round empty
    ∷ round empty
    ∷ round (delivered clean (lit "r1"))
    ∷ record (round (delivered clean (lit "r2"))) { handler_ok = false; nack_ok = false }
    ∷ []

abbrev actions : List (Round × List Action) → List Action
actions [] = []
actions ((r, as') ∷ log) = as' ++ actions log

worker_actions :
    actions (worker_loop digest runner 1 rounds)
    ≡ sleep 870
      ∷ sleep 1740
      ∷ sleep 2610
      ∷ ack (lit "r1")
      ∷ nack (lit "r2") 435000000
      ∷ ack (lit "r2")
      ∷ []
unfolding worker_loop format_uint decide
worker_actions = refl

abbrev dead : DlqRecord
dead = record {
  record_id = [];
  queue = lit " q ";
  envelope = envelope;
  final_attempt = negsuc 0;
  reason = lit "boom ";
  first_seen_at = 0;
  last_seen_at = 0;
  dead_lettered_at = 5;
  extra = some ((lit "Site", lit "x") ∷ []);
  record_hash = [];
}

normalize_dlq_record-settled_example :
    normalize_dlq_record dead
    ≡ inr (record dead {
      queue = lit "q";
      envelope = clean;
      final_attempt = pos 0;
      reason = lit "boom";
      extra = some ((lit "site", lit "x") ∷ []);
    })
unfolding trim_space to_lower sort place text_lt text_eq insert lookup normalize_pairs
normalize_dlq_record-settled_example =
    normalize_dlq_record-settled dead clean cleaned refl (omega arith) (omega arith) (inl refl)
