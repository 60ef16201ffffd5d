-- ===== src/RingBuffer/Closing.antt =====
-- What happens to the chunks that a buffer still holds when it is closed.
use chartly.Prelude.{
  ℕ, zero, suc, ◌^◌, ◌+◌, ◌%◌, ◌<◌, ◌≡◌, ◌≢◌, refl, ap, sym, ◌∙◌, true, false, List, [], ◌∷◌, map,
  some, arith, lt→ltb, le→ltb, length, length-set,
}
use chartly.Prelude.Int.{is_zero, pos, negsuc}
use mathlib.Core.Path.{ap₂}
use native.Mathlib.Nat.{mod-lt, mod-eq_of_lt, add-zero}
use chartly.RingBuffer.{
  Chunk, RingBuffer, Outcome, Case, chunk, failed, blocked, err_closed, on_channel, on_closed,
  close, pop_locked, pop_item, pop_closed, pop_case, select, try_pop, try_push, stats,
}
use chartly.RingBuffer.Refine.{Holds, Inv, apart, next_shift, Holds-set_ne, pop_item-Inv, serve}
use chartly.RingBuffer.Queue.{Op, put, take, closed_replies}

-- A closed buffer that holds `xs`, with `n` tokens in `items`.
pub record IsClosed (r : RingBuffer) (xs : List Chunk) (n : ℕ) : Type 0 where
  pub shut : r.closed ≡ true
  pub room : length r.buf ≡ r.capacity
  pub head_in : r.head < r.capacity
  pub sized : r.size ≡ pos (length xs)
  pub tokens : r.items ≡ n
  pub free : r.slots + length xs ≡ r.capacity
  pub held : Holds r.buf r.capacity r.head xs

close-IsClosed : (r : RingBuffer) (xs : List Chunk) → Inv r xs → IsClosed (close r) xs (length xs)
unfolding close
close-IsClosed r xs v = record {
  shut = refl;
  room = v.room;
  head_in = v.head_in;
  sized = v.sized;
  tokens = v.tokens;
  free = v.free;
  held = v.held;
}

-- The `pop_locked` of both cases.
pop_locked-IsClosed :
    (r : RingBuffer) (x : Chunk) (xs : List Chunk) (n : ℕ)
    → IsClosed r (x ∷ xs) n
    → let (r', c) = pop_locked r in (c ≡ x) × IsClosed (record r' { slots = r.slots + 1 }) xs n
unfolding pop_locked
pop_locked-IsClosed r x xs n v =
    let out : (j : ℕ) → j < length xs → ((r.head + 1) % r.capacity + j) % r.capacity ≢ r.head =
      λ j b e.
        apart r.capacity r.head 0 (suc j) v.head_in (omega arith) (omega (arith, v.free))
          (rw add-zero (mod-eq_of_lt v.head_in) ∙ sym (sym (next_shift r.capacity r.head j) ∙ e)) in
    let step : (r.head + 1) % r.capacity < r.capacity =
      mod-lt (r.head + 1) (omega (arith, v.head_in)) in
    (
      v.held.0,
      record {
        shut = v.shut;
        room = length-set r.buf r.head [] ∙ v.room;
        head_in = step;
        sized = ground (arith, v.sized);
        tokens = v.tokens;
        free = omega (arith, v.free);
        held =
            Holds-set_ne r.buf r.capacity ((r.head + 1) % r.capacity) r.head [] xs out step
              v.held.1;
      },
    )

-- A select of a closed buffer with chunks takes either case.
try_pop_closed : (r : RingBuffer) → r.closed ≡ true → try_pop r false false on_closed ≡ pop_closed r
unfolding pop_case select
try_pop_closed r h = unfold try_pop in ground (arith, h)

try_pop_item :
    (r : RingBuffer) (pref : Case)
    → 0 < r.items
    → r.closed ≡ true
    → select pref true false true ≡ some on_channel
    → try_pop r false false pref ≡ pop_item r
unfolding pop_case
try_pop_item r pref h shut e = unfold try_pop in ground (arith, h, shut, e)

pop_closed-IsClosed :
    (r : RingBuffer) (x : Chunk) (xs : List Chunk) (n : ℕ)
    → IsClosed r (x ∷ xs) n
    → let (r', o) = pop_closed r in (o ≡ chunk x) × IsClosed r' xs n
unfolding pop_closed pop_locked
pop_closed-IsClosed r x xs n v =
    let (c, w) = pop_locked-IsClosed r x xs n v in
    rw (ap is_zero v.sized, lt→ltb r.slots r.capacity (omega (arith, v.free))) (ap chunk c, w)

-- `k` calls of `TryPop` whose select takes the closed case.
unfoldable pub drain : RingBuffer → ℕ → RingBuffer × List Outcome
drain r zero = (r, [])
drain r (suc k) =
    let (r', o) = try_pop r false false on_closed in let (s, os) = drain r' k in (s, o ∷ os)

drain-suc :
    (r : RingBuffer) (k : ℕ) (p : RingBuffer × Outcome)
    → try_pop r false false on_closed ≡ p
    → drain r (suc k) ≡ ((drain p.0 k).0, p.1 ∷ (drain p.0 k).1)
unfolding drain
drain-suc r k p e = ap (λ q. ((drain q.0 k).0, q.1 ∷ (drain q.0 k).1)) e

drain-IsClosed :
    (r : RingBuffer) (xs : List Chunk) (n : ℕ)
    → IsClosed r xs n
    → let (s, os) = drain r (length xs) in (os ≡ map chunk xs) × IsClosed s [] n
drain-IsClosed r [] n v = unfold drain in (refl, v)
drain-IsClosed r (x ∷ xs) n v =
    rw (drain-suc r (length xs) (pop_closed r) (try_pop_closed r v.shut)) (
      let (o, w) = pop_closed-IsClosed r x xs n v in
      let (os, z) = drain-IsClosed (pop_closed r).0 xs n w in (ap₂ ◌∷◌ o os, z))

drained_blocks :
    (r : RingBuffer) (n : ℕ)
    → IsClosed r [] (suc n)
    → let (s, o) = try_pop r false false on_channel in (o ≡ blocked) × (s.size ≡ negsuc 0)
unfolding pop_item pop_locked
drained_blocks r n v =
    rw
      (
        try_pop_item r on_channel (omega (arith, v.tokens)) v.shut (unfold select in refl),
        le→ltb r.capacity r.slots (omega (arith, v.free)),
        v.sized,
      )
      (refl, refl)

-- A buffer that holds chunks is closed, and as many calls of `TryPop` take the closed case of their
-- select: they return all the chunks in order, but leave the tokens in `items`. A further call that
-- takes the `items` case then counts the size down to -1 and waits for ever to give a slot back.
pub closed_drain_blocks :
    (r : RingBuffer) (x : Chunk) (xs : List Chunk)
    → Inv r (x ∷ xs)
    → let (s, os) = drain (close r) (length (x ∷ xs)) in
      let (t, o) = try_pop s false false on_channel in
      (os ≡ map chunk (x ∷ xs)) × (o ≡ blocked) × ((stats t).len ≡ negsuc 0)
unfolding stats
closed_drain_blocks r x xs v =
    let (os, w) =
      drain-IsClosed (close r) (x ∷ xs) (length (x ∷ xs)) (close-IsClosed r (x ∷ xs) v) in
    let (stuck, less) = drained_blocks (drain (close r) (length (x ∷ xs))).0 (length xs) w in
    (os, stuck, less)

module _ (r : RingBuffer) (shut : r.closed ≡ true) where
  try_push_shut :
      (c : Chunk)
      → try_push r c false on_channel
        ≡ (record r { dropped = (r.dropped + 1) % 2 ^ 64 }, failed err_closed)
  try_push_shut c = unfold try_push in ground (arith, shut)

  try_pop_empty :
      r.items ≡ 0 → r.size ≡ pos 0 → try_pop r false false on_channel ≡ (r, failed err_closed)
  unfolding pop_case pop_closed select
  try_pop_empty h z = unfold try_pop in ground (arith, shut, h, z)

refused-Inv :
    (r : RingBuffer) (xs : List Chunk)
    → Inv r xs
    → Inv (record r { dropped = (r.dropped + 1) % 2 ^ 64 }) xs
refused-Inv r xs v = record {
  spare = v.spare;
  room = v.room;
  head_in = v.head_in;
  tail_at = v.tail_at;
  sized = v.sized;
  tokens = v.tokens;
  free = v.free;
  held = v.held;
}

close-Inv : (r : RingBuffer) (xs : List Chunk) → Inv r xs → Inv (close r) xs
unfolding close
close-Inv r xs v = record {
  spare = v.spare;
  room = v.room;
  head_in = v.head_in;
  tail_at = v.tail_at;
  sized = v.sized;
  tokens = v.tokens;
  free = v.free;
  held = v.held;
}

close_drains_from :
    (ops : List Op) (r : RingBuffer) (xs : List Chunk)
    → r.closed ≡ true
    → Inv r xs
    → serve r on_channel ops ≡ closed_replies xs ops
unfolding serve closed_replies
close_drains_from [] r xs shut v = refl
close_drains_from (put c ∷ ops) r xs shut v =
    let r' : RingBuffer = record r { dropped = (r.dropped + 1) % 2 ^ 64 } in
    let ih = close_drains_from ops r' xs shut (refused-Inv r xs v) in
    ap (λ p. p.1 ∷ serve p.0 on_channel ops) (try_push_shut r shut c)
    ∙ ap (λ os. failed err_closed ∷ os) ih
close_drains_from (take ∷ ops) r [] shut v =
    ap (λ p. p.1 ∷ serve p.0 on_channel ops) (try_pop_empty r shut v.tokens v.sized)
    ∙ ap (λ os. failed err_closed ∷ os) (close_drains_from ops r [] shut v)
close_drains_from (take ∷ ops) r (x ∷ xs) shut v =
    let (o, w) = pop_item-Inv r x xs v in
    let ih = close_drains_from ops (pop_item r).0 xs (unfold pop_item in ground (arith, shut)) w in
    ap (λ p. p.1 ∷ serve p.0 on_channel ops)
      (try_pop_item r on_channel (omega (arith, v.tokens)) shut (unfold select in refl))
    ∙ ap₂ ◌∷◌ o ih

-- A buffer that holds the chunks `xs` is closed, and every select with a ready `items` case takes
-- it. From then on every `TryPush` is refused with `ErrClosed`, and the calls of `TryPop` return all
-- of `xs` in order and then `ErrClosed` for ever: no chunk is lost and no call waits.
pub close_drains :
    (r : RingBuffer) (xs : List Chunk) (ops : List Op)
    → Inv r xs
    → serve (close r) on_channel ops ≡ closed_replies xs ops
close_drains r xs ops v =
    close_drains_from ops (close r) xs (unfold close in refl) (close-Inv r xs v)
