-- ===== src/RingBuffer/Late.antt =====
-- A call of `TryPush` during which another goroutine closes the buffer.
use chartly.Prelude.{
  ℕ, ◌+◌, ◌-◌, ◌%◌, ◌^◌, ◌<◌, ◌≡◌, refl, sym, ap, ◌∙◌, Bool, true, false, ◌⊎◌, inl, inr, some, List,
  arith, ltb, ltb→lt,
}
use chartly.RingBuffer.{
  Chunk, RingBuffer, Case, failed, err_closed, on_channel, on_ctx, on_closed, push_case, select,
  try_push,
}
use chartly.RingBuffer.Refine.{Inv}

-- The select takes a free slot or sees that the buffer is closed.
select_late :
    (pref : Case) (free : Bool)
    → ((free ≡ true) × (select pref free false true ≡ some on_channel))
      ⊎ (select pref free false true ≡ some on_closed)
unfolding select
select_late on_channel true = inl (refl, refl)
select_late on_channel false = inr refl
select_late on_ctx true = inl (refl, refl)
select_late on_ctx false = inr refl
select_late on_closed true = inr refl
select_late on_closed false = inr refl

-- What stays of a buffer whose slots and counter of drops were set.
refused : RingBuffer → ℕ → RingBuffer
refused r slots = record r { slots = slots; closed = true; dropped = (r.dropped + 1) % 2 ^ 64 }

refused-Inv :
    (r : RingBuffer) (xs : List Chunk) (slots : ℕ)
    → slots ≡ r.slots
    → Inv r xs
    → Inv (refused r slots) xs
unfolding refused
refused-Inv r xs slots e v = record {
  spare = v.spare;
  room = v.room;
  head_in = v.head_in;
  tail_at = v.tail_at;
  sized = v.sized;
  tokens = v.tokens;
  free = omega (arith, v.free, e);
  held = v.held;
}

module _ (r : RingBuffer) (c : Chunk) (pref : Case) (open' : r.closed ≡ false) where
  late_slot :
      0 < r.slots
      → r.slots - 1 < r.capacity
      → select pref true false true ≡ some on_channel
      → try_push r c true pref ≡ (refused r (r.slots - 1 + 1), failed err_closed)
  unfolding push_case refused
  late_slot h g e = unfold try_push in ground (arith, open', h, g, e)

  late_closed :
      select pref (ltb 0 r.slots) false true ≡ some on_closed
      → try_push r c true pref ≡ (refused r r.slots, failed err_closed)
  unfolding push_case refused
  late_closed e = unfold try_push in ground (arith, open', e)

-- If another goroutine closes an open buffer after the first look of `TryPush` and before its select,
-- then the call returns `ErrClosed` whatever the select takes. A slot that it took is given back:
-- the buffer holds the same chunks, keeps its invariant and counts one more drop.
pub try_push-late :
    (r : RingBuffer) (xs : List Chunk) (c : Chunk) (pref : Case)
    → r.closed ≡ false
    → Inv r xs
    → let (r', o) = try_push r c true pref in
      (o ≡ failed err_closed)
      × Inv r' xs
      × (r'.closed ≡ true)
      × (r'.dropped ≡ (r.dropped + 1) % 2 ^ 64)
unfolding refused
try_push-late r xs c pref open' v = elim (select_late pref (ltb 0 r.slots)) [
  | inl (free, e) ↦
      let some_slot = ltb→lt 0 r.slots free in
      let taken : select pref true false true ≡ some on_channel =
        ap (λ b. select pref b false true) (sym free) ∙ e in
      rw (late_slot r c pref open' some_slot (omega (arith, v.free, v.spare, some_slot)) taken)
        (refl, refused-Inv r xs (r.slots - 1 + 1) (omega (arith, some_slot)) v, refl, refl)
  | inr e ↦ rw (late_closed r c pref open' e) (refl, refused-Inv r xs r.slots refl v, refl, refl)
]
