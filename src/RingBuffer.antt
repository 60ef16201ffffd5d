-- ===== src/RingBuffer.antt =====
-- The bounded buffer of byte chunks between a producer and a consumer,
-- services/connector-hub/internal/streaming/backpressure.go. The channels `slots` and `items` are
-- the numbers of their tokens. A call is one step; `late` says that another goroutine closes the
-- buffer before the call's select, `later` that it does so after it, and `pref` is the case that the
-- select takes where several are ready.
pub mod Queue
pub mod Refine
pub mod Closing
pub mod Late
mod Tests
use chartly.Prelude.{
  ℕ, zero, suc, ◌+◌, ◌-◌, ◌%◌, ◌^◌, Bool, true, false, ◌&&◌, ◌||◌, Option, none, some, List, [],
  ◌∷◌, ltb, ◌==◌, if◌then◌else◌, get_or, set, replicate,
}
use chartly.Prelude.Int.{ℤ, pos, negsuc, int_suc, int_pred, is_zero}

-- `nil` is the chunk with no bytes.
abbrev pub Chunk : Type 0
Chunk = List ℕ

pub record RingBuffer : Type 0 where
  pub capacity : ℕ
  pub buf : List Chunk
  pub head : ℕ
  pub tail : ℕ
  pub size : ℤ
  pub slots : ℕ
  pub items : ℕ
  pub closed : Bool
  pub dropped : ℕ

pub data Err : Type 0 where
  err_closed err_would_block ctx_err : Err

-- What a call returns, or that it waits for ever on a full channel.
pub data Outcome : Type 0 where
  pushed : Outcome
  chunk : Chunk → Outcome
  failed : Err → Outcome
  blocked : Outcome

abbrev pub at_least_one : ℤ → ℕ
at_least_one (pos (suc n)) = suc n
at_least_one _ = 1

unfoldable pub new_ring_buffer : ℤ → RingBuffer
new_ring_buffer c =
    let capacity = at_least_one c in
    record {
      capacity = capacity;
      buf = replicate capacity [];
      head = 0;
      tail = 0;
      size = pos 0;
      slots = capacity;
      items = 0;
      closed = false;
      dropped = 0;
    }

unfoldable pub close : RingBuffer → RingBuffer
close r = record r { closed = true }

pub record Stats : Type 0 where
  pub capacity : ℕ
  pub len : ℤ
  pub dropped : ℕ
  pub closed : Bool

unfoldable pub stats : RingBuffer → Stats
stats r = record { capacity = r.capacity; len = r.size; dropped = r.dropped; closed = r.closed }

-- `dropped` is a uint64.
abbrev pub drop_one : RingBuffer → RingBuffer
drop_one r = record r { dropped = (r.dropped + 1) % 2 ^ 64 }

-- A token into a channel of `capacity` places.
abbrev release_slot : RingBuffer → Outcome → RingBuffer × Outcome
release_slot r o =
    if ltb r.slots r.capacity then (record r { slots = r.slots + 1 }, o) else (r, blocked)

abbrev send_item : RingBuffer → RingBuffer × Outcome
send_item r =
    if ltb r.items r.capacity then (record r { items = r.items + 1 }, pushed) else (r, blocked)

pub data Case : Type 0 where
  on_channel on_ctx on_closed : Case

abbrev ready : Case → Bool → Bool → Bool → Bool
ready on_channel channel ctx closed = channel
ready on_ctx channel ctx closed = ctx
ready on_closed channel ctx closed = closed

-- A select: the preferred case if it is ready, else one that is; `none` if none is.
unfoldable pub select : Case → Bool → Bool → Bool → Option Case
select pref channel ctx closed =
    if ready pref channel ctx closed
    then some pref
    else if channel
    then some on_channel
    else if ctx
    then some on_ctx
    else if closed
    then some on_closed
    else none

abbrev closed_if : Bool → RingBuffer → RingBuffer
closed_if late r = record r { closed = r.closed || late }

-- After a slot was taken and the second look found the buffer open.
unfoldable pub write_chunk : RingBuffer → Chunk → RingBuffer × Outcome
write_chunk r c =
    send_item (record r {
      buf = set r.buf r.tail c;
      tail = (r.tail + 1) % r.capacity;
      size = int_suc r.size;
    })

-- What follows the select of `TryPush` and `Push`: a slot is taken, and goes back if the second
-- look finds the buffer closed.
push_case : Option Case → RingBuffer → Chunk → RingBuffer × Outcome
unfolding write_chunk
push_case (some on_channel) r c =
    let taken = record r { slots = r.slots - 1 } in
    if r.closed then release_slot (drop_one taken) (failed err_closed) else write_chunk taken c
push_case (some on_ctx) r c = (drop_one r, failed ctx_err)
push_case (some on_closed) r c = (drop_one r, failed err_closed)
push_case none r c = (r, failed err_would_block)

unfoldable pub try_push : RingBuffer → Chunk → Bool → Case → RingBuffer × Outcome
unfolding push_case select
try_push r c late pref =
    if r.closed
    then (drop_one r, failed err_closed)
    else push_case (select pref (ltb 0 r.slots) false late) (closed_if late r) c

abbrev wait : Outcome → Outcome
wait (failed err_would_block) = blocked
wait o = o

-- `Push` waits where `TryPush` would block.
unfoldable pub push : RingBuffer → Bool → Chunk → Bool → Bool → Case → RingBuffer × Outcome
unfolding push_case select
push r ctx_done c ctx_later late pref =
    if ctx_done
    then (drop_one r, failed ctx_err)
    else if r.closed
    then (drop_one r, failed err_closed)
    else let (r', o) =
        push_case (select pref (ltb 0 r.slots) ctx_later late) (closed_if late r) c in
      (r', wait o)

unfoldable pub pop_locked : RingBuffer → RingBuffer × Chunk
pop_locked r = (
  record r { buf = set r.buf r.head []; head = (r.head + 1) % r.capacity; size = int_pred r.size },
  get_or r.buf r.head [],
)

-- The case `<-r.items`.
unfoldable pub pop_item : RingBuffer → RingBuffer × Outcome
unfolding pop_locked
pop_item r =
    let (r', c) = pop_locked (record r { items = r.items - 1 }) in release_slot r' (chunk c)

-- The case `<-r.closedCh`, which takes no token from `items`.
unfoldable pub pop_closed : RingBuffer → RingBuffer × Outcome
unfolding pop_locked
pop_closed r =
    let (r', c) = pop_locked r in
    if is_zero r.size then (r, failed err_closed) else release_slot r' (chunk c)

-- What follows the select of `TryPop` and `Pop`.
pop_case : Option Case → RingBuffer → RingBuffer × Outcome
unfolding pop_item pop_closed
pop_case (some on_channel) r = pop_item r
pop_case (some on_ctx) r = (r, failed ctx_err)
pop_case (some on_closed) r = pop_closed r
pop_case none r = (r, failed err_would_block)

-- The default case of `TryPop` looks at the flag once more.
abbrev or_closed : Bool → RingBuffer × Outcome → RingBuffer × Outcome
or_closed later (r, failed err_would_block) = (
  closed_if later r,
  if later && is_zero r.size then failed err_closed else failed err_would_block,
)
or_closed later (r, o) = (r, o)

unfoldable pub try_pop : RingBuffer → Bool → Bool → Case → RingBuffer × Outcome
unfolding pop_case select
try_pop r late later pref =
    or_closed later
      (pop_case (select pref (ltb 0 r.items) false (r.closed || late)) (closed_if late r))

-- `Pop` waits where `TryPop` would block.
unfoldable pub pop : RingBuffer → Bool → Bool → Bool → Case → RingBuffer × Outcome
unfolding pop_case select
pop r ctx_done ctx_later late pref =
    if ctx_done
    then (r, failed ctx_err)
    else let (r', o) =
        pop_case (select pref (ltb 0 r.items) ctx_later (r.closed || late)) (closed_if late r) in
      (r', wait o)
