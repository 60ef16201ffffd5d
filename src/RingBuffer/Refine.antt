-- ===== src/RingBuffer/Refine.antt =====
-- An open buffer against the queue of the chunks that it holds.
use chartly.Prelude.{
  ℕ, zero, suc, ◌+◌, ◌-◌, ◌%◌, ◌≤◌, ◌<◌, ◌≡◌, ◌≢◌, ◌⊎◌, inl, inr, Bool-cases, refl, ap, sym, ◌∙◌,
  true, false, none, some, List, [], ◌∷◌, ◌++◌, arith, ltb, lt→ltb, length, length-append, get_or,
  set, length-set, length-replicate, get_or-set_self, get_or-set_ne,
}
use chartly.Prelude.Int.{ℤ, pos, negsuc}
use mathlib.Core.Path.{ap₂}
use native.Mathlib.Decide.{dec_lt}
use native.Mathlib.Nat.{mod-lt, mod-eq_of_lt, mod-eq-sub-mod, mod-add-mod, add-zero}
use chartly.RingBuffer.{
  Chunk, RingBuffer, Outcome, Case, at_least_one, new_ring_buffer, try_push, try_pop, chunk, pushed,
  failed, err_would_block, pop_item, write_chunk, on_closed, on_channel, push_case, pop_case,
  select, on_ctx,
}
use chartly.RingBuffer.Queue.{Op, put, take, enqueue, dequeue, replies}

-- `xs` stands in the buffer from index `h` on, going round at `cap`.
abbrev pub Holds : List Chunk → ℕ → ℕ → List Chunk → Type 0
Holds buf cap h [] = Unit {0}
Holds buf cap h (x ∷ xs) = (get_or buf h [] ≡ x) × Holds buf cap ((h + 1) % cap) xs

-- The buffer holds the chunks `xs`, and its counters and channels agree with them.
pub record Inv (r : RingBuffer) (xs : List Chunk) : Type 0 where
  pub spare : 0 < r.capacity
  pub room : length r.buf ≡ r.capacity
  pub head_in : r.head < r.capacity
  pub tail_at : r.tail ≡ (r.head + length xs) % r.capacity
  pub sized : r.size ≡ pos (length xs)
  pub tokens : r.items ≡ length xs
  pub free : r.slots + length xs ≡ r.capacity
  pub held : Holds r.buf r.capacity r.head xs

-- An index runs past the end once at most.
wrap :
    (cap h j : ℕ)
    → h < cap
    → j < cap
    → ((h + j < cap) × ((h + j) % cap ≡ h + j)) ⊎ ((cap ≤ h + j) × ((h + j) % cap + cap ≡ h + j))
wrap cap h j a b = elim (dec_lt (h + j) cap) [
  | yes p ↦ inl (p, mod-eq_of_lt p)
  | no p ↦ inr (
    omega arith,
    omega (
      arith,
      mod-eq-sub-mod {n = h + j} {m = cap} (omega arith),
      mod-eq_of_lt {n = h + j - cap} {m = cap} (omega arith),
    ),
  )
]

-- Different steps from one index lead to different places.
pub apart : (cap h j n : ℕ) → h < cap → j < n → n < cap → (h + j) % cap ≢ (h + n) % cap
apart cap h j n a b c e = omega (arith, wrap cap h j a (omega arith), wrap cap h n a c)

pub next_shift : (cap h n : ℕ) → ((h + 1) % cap + n) % cap ≡ (h + suc n) % cap
next_shift cap h n = rw mod-add-mod (ap (λ k. k % cap) (omega arith))

pub Holds-set_ne :
    (buf : List Chunk) (cap h i : ℕ) (v : Chunk) (xs : List Chunk)
    → ((j : ℕ) → j < length xs → (h + j) % cap ≢ i)
    → h < cap
    → Holds buf cap h xs
    → Holds (set buf i v) cap h xs
Holds-set_ne buf cap h i v [] out a held = tt
Holds-set_ne buf cap h i v (x ∷ xs) out a held =
    let here : i ≢ h = λ e. out 0 (omega arith) (rw add-zero (mod-eq_of_lt a ∙ sym e)) in
    (
      get_or-set_ne buf v [] here ∙ held.0,
      Holds-set_ne buf cap ((h + 1) % cap) i v xs
          (λ j b e. out (suc j) (omega arith) (sym (next_shift cap h j) ∙ e))
          (mod-lt (h + 1) (omega arith)) held.1,
    )

Holds-snoc :
    (buf : List Chunk) (cap h : ℕ) (c : Chunk) (xs : List Chunk)
    → h < cap
    → Holds buf cap h xs
    → get_or buf ((h + length xs) % cap) [] ≡ c
    → Holds buf cap h (xs ++ c ∷ [])
Holds-snoc buf cap h c [] a held e = (
  ap (λ k. get_or buf k []) (sym (mod-eq_of_lt a) ∙ ap (λ k. k % cap) (sym (add-zero h))) ∙ e,
  tt,
)
Holds-snoc buf cap h c (x ∷ xs) a held e = (
  held.0,
  Holds-snoc buf cap ((h + 1) % cap) c xs (mod-lt (h + 1) (omega arith)) held.1
      (ap (λ k. get_or buf k []) (next_shift cap h (length xs)) ∙ e),
)

module _ (r : RingBuffer) (xs : List Chunk) (v : Inv r xs) where
  pub write_chunk-Inv :
      (c : Chunk)
      → length xs < r.capacity
      → let (r', o) = write_chunk (record r { slots = r.slots - 1 }) c in
        (o ≡ pushed) × Inv r' (xs ++ c ∷ [])
  unfolding write_chunk
  write_chunk-Inv c room =
      let n = length xs in
      let old =
        Holds-set_ne r.buf r.capacity r.head r.tail c xs
          (λ j b e. apart r.capacity r.head j n v.head_in b room (e ∙ v.tail_at)) v.head_in
          v.held in
      let here : get_or (set r.buf r.tail c) ((r.head + n) % r.capacity) [] ≡ c =
        ap (λ k. get_or (set r.buf r.tail c) k []) (sym v.tail_at)
        ∙ get_or-set_self r.buf r.tail c []
            (omega (arith, v.room, v.tail_at, mod-lt (r.head + n) v.spare)) in
      let now = Holds-snoc (set r.buf r.tail c) r.capacity r.head c xs v.head_in old here in
      rw (lt→ltb r.items r.capacity (omega (arith, v.tokens, room))) (
        refl,
        record {
          spare = v.spare;
          room = length-set r.buf r.tail c ∙ v.room;
          head_in = v.head_in;
          tail_at = rw v.tail_at (
              rw (length-append xs (c ∷ []))
                (rw mod-add-mod (ap (λ k. k % r.capacity) (omega arith))));
          sized = ground (arith, v.sized, length-append xs (c ∷ []));
          tokens = omega (arith, v.tokens, length-append xs (c ∷ []));
          free = omega (arith, v.free, room, length-append xs (c ∷ []));
          held = now;
        },
      )

pub pop_item-Inv :
    (r : RingBuffer) (x : Chunk) (xs : List Chunk)
    → Inv r (x ∷ xs)
    → let (r', o) = pop_item r in (o ≡ chunk x) × Inv r' xs
unfolding pop_item
pop_item-Inv r x xs v =
    let out : (j : ℕ) → j < length xs → ((r.head + 1) % r.capacity + j) % r.capacity ≢ r.head =
      λ j b e.
        apart r.capacity r.head 0 (suc j) v.head_in (omega arith) (omega (arith, v.free))
          (rw add-zero (mod-eq_of_lt v.head_in) ∙ sym (sym (next_shift r.capacity r.head j) ∙ e)) in
    rw (lt→ltb r.slots r.capacity (omega (arith, v.free))) (
      ap chunk v.held.0,
      record {
        spare = v.spare;
        room = length-set r.buf r.head [] ∙ v.room;
        head_in = mod-lt (r.head + 1) v.spare;
        tail_at = v.tail_at ∙ sym (next_shift r.capacity r.head (length xs));
        sized = ground (arith, v.sized);
        tokens = omega (arith, v.tokens);
        free = omega (arith, v.free);
        held =
            Holds-set_ne r.buf r.capacity ((r.head + 1) % r.capacity) r.head [] xs out
              (mod-lt (r.head + 1) v.spare) v.held.1;
      },
    )

-- The calls that do not wait, on a buffer that nobody closes.
unfoldable pub serve : RingBuffer → Case → List Op → List Outcome
serve r pref [] = []
serve r pref (put c ∷ ops) = let (r', o) = try_push r c false pref in o ∷ serve r' pref ops
serve r pref (take ∷ ops) = let (r', o) = try_pop r false false pref in o ∷ serve r' pref ops

select_ready : (pref : Case) → select pref true false false ≡ some on_channel
unfolding select
select_ready on_channel = refl
select_ready on_ctx = refl
select_ready on_closed = refl

select-none : (pref : Case) → select pref false false false ≡ none
unfolding select
select-none on_channel = refl
select-none on_ctx = refl
select-none on_closed = refl

module _ (pref : Case) (r : RingBuffer) (still : r.closed ≡ false) where
  try_push_ready :
      (c : Chunk)
      → 0 < r.slots
      → try_push r c false pref ≡ write_chunk (record r { slots = r.slots - 1 }) c
  unfolding push_case
  try_push_ready c h = unfold try_push in ground (arith, select_ready pref)

  try_push_full : (c : Chunk) → r.slots ≡ 0 → try_push r c false pref ≡ (r, failed err_would_block)
  unfolding push_case
  try_push_full c h = unfold try_push in ground (arith, select-none pref)

  try_pop_ready : 0 < r.items → try_pop r false false pref ≡ pop_item r
  unfolding pop_case
  try_pop_ready h = unfold try_pop in ground (arith, select_ready pref)

  try_pop_none : r.items ≡ 0 → try_pop r false false pref ≡ (r, failed err_would_block)
  unfolding pop_case
  try_pop_none h = unfold try_pop in ground (arith, select-none pref)

-- What a call leaves: the queue's reply, and an open buffer that holds the queue.
abbrev Leaves : RingBuffer → RingBuffer × Outcome → List Chunk × Outcome → Type 0
Leaves r (r', o) (ys, o') = (o ≡ o') × Inv r' ys × (r'.closed ≡ false) × (r'.capacity ≡ r.capacity)

module _ (pref : Case) (r : RingBuffer) (still : r.closed ≡ false) where
  try_push_refines :
      (xs : List Chunk) (c : Chunk)
      → Inv r xs
      → Leaves r (try_push r c false pref) (enqueue r.capacity xs c)
  unfolding enqueue
  try_push_refines xs c v = elim (Bool-cases (ltb (length xs) r.capacity)) [
    | inl e ↦
        rw (e, try_push_ready pref r still c (ground (arith, v.free)))
          (let (o, w) = write_chunk-Inv r xs v c (ground arith) in
            (o, w, unfold write_chunk in ground arith, unfold write_chunk in ground arith))
    | inr e ↦ rw (e, try_push_full pref r still c (ground (arith, v.free))) (refl, v, still, refl)
  ]

  try_pop_refines :
      (xs : List Chunk) → Inv r xs → Leaves r (try_pop r false false pref) (dequeue xs)
  unfolding dequeue
  try_pop_refines [] v = rw (try_pop_none pref r still v.tokens) (refl, v, still, refl)
  try_pop_refines (x ∷ xs) v = rw (try_pop_ready pref r still (omega (arith, v.tokens))) (
      let (o, w) = pop_item-Inv r x xs v in
      (o, w, unfold pop_item in ground arith, unfold pop_item in ground arith))

serve_refines :
    (pref : Case) (ops : List Op) (r : RingBuffer) (xs : List Chunk)
    → r.closed ≡ false
    → Inv r xs
    → serve r pref ops ≡ replies r.capacity xs ops
unfolding serve replies
serve_refines pref [] r xs still v = refl
serve_refines pref (put c ∷ ops) r xs still v =
    let (o, w, open', same) = try_push_refines pref r still xs c v in
    let ih =
      serve_refines pref ops (try_push r c false pref).0 (enqueue r.capacity xs c).0 open' w in
    ap₂ ◌∷◌ o (ih ∙ ap (λ k. replies k (enqueue r.capacity xs c).0 ops) same)
serve_refines pref (take ∷ ops) r xs still v =
    let (o, w, open', same) = try_pop_refines pref r still xs v in
    let ih = serve_refines pref ops (try_pop r false false pref).0 (dequeue xs).0 open' w in
    ap₂ ◌∷◌ o (ih ∙ ap (λ k. replies k (dequeue xs).0 ops) same)

pub new_ring_buffer-Inv : (c : ℤ) → Inv (new_ring_buffer c) []
unfolding new_ring_buffer
new_ring_buffer-Inv c = record {
  spare = positive c;
  room = length-replicate (at_least_one c) [];
  head_in = positive c;
  tail_at = sym (mod-eq_of_lt (positive c));
  sized = refl;
  tokens = refl;
  free = omega arith;
  held = tt;
}
  where
    positive : (c : ℤ) → 0 < at_least_one c
    positive (pos zero) = omega arith
    positive (pos (suc n)) = omega arith
    positive (negsuc n) = omega arith

-- A buffer that nobody closes is a queue: any sequence of `TryPush` and `TryPop` on a new buffer
-- gets exactly the replies of a first-in first-out queue of at most `capacity` chunks, each chunk
-- once and in order, with `ErrWouldBlock` exactly at a full or empty queue, and no call gets stuck.
pub new_ring_buffer_refines :
    (c : ℤ) (pref : Case) (ops : List Op)
    → serve (new_ring_buffer c) pref ops ≡ replies (new_ring_buffer c).capacity [] ops
new_ring_buffer_refines c pref ops =
    serve_refines pref ops (new_ring_buffer c) [] (unfold new_ring_buffer in refl)
      (new_ring_buffer-Inv c)
