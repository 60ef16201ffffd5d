-- ===== src/RingBuffer/Queue.antt =====
-- What the buffer promises: a queue of at most `capacity` chunks, oldest first.
use chartly.Prelude.{ℕ, List, [], ◌∷◌, ◌++◌, ltb, if◌then◌else◌, length}
use chartly.RingBuffer.{Chunk, Outcome, pushed, chunk, failed, err_would_block, err_closed}

pub data Op : Type 0 where
  put : Chunk → Op
  take : Op

unfoldable pub enqueue : ℕ → List Chunk → Chunk → List Chunk × Outcome
enqueue capacity xs c =
    if ltb (length xs) capacity then (xs ++ c ∷ [], pushed) else (xs, failed err_would_block)

unfoldable pub dequeue : List Chunk → List Chunk × Outcome
dequeue [] = ([], failed err_would_block)
dequeue (x ∷ xs) = (xs, chunk x)

unfoldable pub replies : ℕ → List Chunk → List Op → List Outcome
unfolding enqueue dequeue
replies capacity xs [] = []
replies capacity xs (put c ∷ ops) =
    let (ys, o) = enqueue capacity xs c in o ∷ replies capacity ys ops
replies capacity xs (take ∷ ops) = let (ys, o) = dequeue xs in o ∷ replies capacity ys ops

-- A queue that takes no more chunks, and says so when it is empty.
unfoldable pub closed_replies : List Chunk → List Op → List Outcome
closed_replies xs [] = []
closed_replies xs (put c ∷ ops) = failed err_closed ∷ closed_replies xs ops
closed_replies [] (take ∷ ops) = failed err_closed ∷ closed_replies [] ops
closed_replies (x ∷ xs) (take ∷ ops) = chunk x ∷ closed_replies xs ops
