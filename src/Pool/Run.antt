-- ===== src/Pool/Run.antt =====
-- The calls that are in progress on one connection pool, and how they interleave.
use chartly.Prelude.{ℕ, Option, none, some, List, [], ◌∷◌, ◌++◌, set, get_elem?}
use chartly.Pool.{Pool}
use chartly.Pool.Step.{Call, entering, starting, reaping, stopping, Answer, Moved, move}

-- The methods that start a call; the release function continues its Acquire.
pub data Method : Type 0 where
  acquire start reap_once stop : Method

abbrev pub entry : Method → Call
entry acquire = entering
entry start = starting
entry reap_once = reaping
entry stop = stopping

pub record World : Type 0 where
  pub pool : Pool
  pub calls : List Call

-- A method is called, or the call with an index does its next action.
pub data Event : Type 0 where
  begin : Method → Event
  act : ℕ → Answer → Event

abbrev pub put_back : World → ℕ → Moved → World
put_back w i (c, p) = record { pool = p; calls = set w.calls i c }

abbrev pub act_on : World → ℕ → Answer → Option Call → World
act_on w i a none = w
act_on w i a (some c) = put_back w i (move a c w.pool)

unfoldable pub step : Event → World → World
unfolding move
step (begin m) w = record w { calls = w.calls ++ entry m ∷ [] }
step (act i a) w = act_on w i a (get_elem? w.calls i)

-- Any interleaving.
unfoldable pub run : List Event → World → World
unfolding step
run [] w = w
run (e ∷ es) w = run es (step e w)
