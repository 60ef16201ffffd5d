-- ===== src/RingBuffer/Tests.antt =====
-- Concrete runs of the ring buffer.
use chartly.Prelude.{◌+◌, ◌%◌, ◌^◌, refl, ◌≡◌, true, false, List, [], ◌∷◌, arith}
use chartly.Prelude.Int.{pos, negsuc}
use chartly.RingBuffer.{
  RingBuffer, chunk, blocked, pushed, failed, err_closed, err_would_block, ctx_err, new_ring_buffer,
  try_push, try_pop, close, stats, push, pop, on_channel, on_closed,
}
use chartly.RingBuffer.Queue.{Op, put, take, replies, closed_replies}
use chartly.RingBuffer.Refine.{Inv, new_ring_buffer-Inv, serve, new_ring_buffer_refines}
use chartly.RingBuffer.Late.{try_push-late}
use chartly.RingBuffer.Closing.{drain, closed_drain_blocks, close_drains}

abbrev calls : List Op
calls = put (1 ∷ []) ∷ put (2 ∷ []) ∷ put (3 ∷ []) ∷ take ∷ put (4 ∷ []) ∷ take ∷ take ∷ take ∷ []

calls_run :
    serve (new_ring_buffer (pos 2)) on_closed calls
    ≡ pushed
      ∷ pushed
      ∷ failed err_would_block
      ∷ chunk (1 ∷ [])
      ∷ pushed
      ∷ chunk (2 ∷ [])
      ∷ chunk (4 ∷ [])
      ∷ failed err_would_block
      ∷ []
unfolding serve new_ring_buffer try_push try_pop
calls_run = refl

new_ring_buffer_refines_example :
    serve (new_ring_buffer (pos 2)) on_closed calls
    ≡ replies (new_ring_buffer (pos 2)).capacity [] calls
new_ring_buffer_refines_example = new_ring_buffer_refines (pos 2) on_closed calls

-- A buffer of one place after one push.
abbrev holding : RingBuffer
holding = record {
  capacity = 1;
  buf = (7 ∷ []) ∷ [];
  head = 0;
  tail = 0;
  size = pos 1;
  slots = 0;
  items = 1;
  closed = false;
  dropped = 0;
}

holding_pushed : (try_push (new_ring_buffer (pos 1)) (7 ∷ []) false on_channel).0 ≡ holding
unfolding new_ring_buffer try_push
holding_pushed = refl

holding-Inv : Inv holding ((7 ∷ []) ∷ [])
holding-Inv = record {
  spare = omega arith;
  room = refl;
  head_in = omega arith;
  tail_at = refl;
  sized = refl;
  tokens = refl;
  free = refl;
  held = (refl, tt);
}

closed_drain_blocks_example :
    let (s, os) = drain (close holding) 1 in
    let (t, o) = try_pop s false false on_channel in
    (os ≡ chunk (7 ∷ []) ∷ []) × (o ≡ blocked) × ((stats t).len ≡ negsuc 0)
closed_drain_blocks_example = closed_drain_blocks holding (7 ∷ []) [] holding-Inv

close_drains_example : serve (close holding) on_channel calls ≡ closed_replies ((7 ∷ []) ∷ []) calls
close_drains_example = close_drains holding ((7 ∷ []) ∷ []) calls holding-Inv

push_waits : (push holding false (8 ∷ []) false false on_channel).1 ≡ blocked
unfolding push
push_waits = refl

pop_cancelled : (pop holding true false false on_channel).1 ≡ failed ctx_err
unfolding pop
pop_cancelled = refl

try_push-late_example :
    let r = new_ring_buffer (pos 1) in
    let (r', o) = try_push r (7 ∷ []) true on_channel in
    (o ≡ failed err_closed)
    × Inv r' []
    × (r'.closed ≡ true)
    × (r'.dropped ≡ (r.dropped + 1) % 2 ^ 64)
try_push-late_example =
    try_push-late (new_ring_buffer (pos 1)) [] (7 ∷ []) on_channel (unfold new_ring_buffer in refl)
      (new_ring_buffer-Inv (pos 1))
