-- ===== src/Idempotency/Store.antt =====
-- The in-memory idempotency store, pkg/idempotency/store.go. A time is a number of nanoseconds, 0
-- is the zero time; the clock, the context's error and a new owner token are arguments of the
-- calls that read them. Each call holds the mutex from the clock to its return, so it is one step.
-- The fields of `Options` are those that `NewMemoryStore` completes.
pub mod Invariant
pub mod Reachable
pub mod View
pub mod Atomic
pub mod Lease
pub mod Replay
mod Tests
use chartly.Prelude.{
  ℕ, ◌+◌, ◌-◌, ◌*◌, ◌%◌, ◌^◌, Bool, true, false, not, Option, none, some, List, [], ◌∷◌, leb, ltb,
  ◌==◌, if◌then◌else◌, length, take,
}
use chartly.Prelude.Int.{ℤ, or_default}
use chartly.Text.{Text, text_eq, is_empty, trim_space}
use chartly.Dict.{Dict, lookup, insert, remove, keep}
use chartly.Idempotency.{
  Error, err_invalid, err_conflict, err_not_owner, err_expired, err_too_large,
}
use chartly.Idempotency.Encode.{hex_encode}
use chartly.Idempotency.Keys.{validate_key}

-- A state is a string in the source: one that is not a constant is `other`.
pub data State : Type 0 where
  in_progress complete failed : State
  other : Text → State

pub record Options : Type 0 where
  pub max_entries : ℤ
  pub max_result_bytes : ℤ
  pub default_ttl : ℤ
  pub prune_every : ℤ

-- Options that `new_memory_store` has completed.
pub record Limits : Type 0 where
  pub max_entries : ℕ
  pub max_result_bytes : ℕ
  pub default_ttl : ℕ
  pub prune_every : ℕ

pub record Record : Type 0 where
  pub key : Text
  pub state : State
  pub owner_token : Text
  pub created_at : ℕ
  pub updated_at : ℕ
  pub expires_at : ℕ
  pub result_hash : Text
  pub result_bytes : List ℕ
  pub error_code : Text
  pub error_msg : Text

-- `Record{}`
abbrev pub zero_record : Record
zero_record = record {
  key = [];
  state = other [];
  owner_token = [];
  created_at = 0;
  updated_at = 0;
  expires_at = 0;
  result_hash = [];
  result_bytes = [];
  error_code = [];
  error_msg = [];
}

unfoldable pub is_expired : Record → ℕ → Bool
is_expired r now = if r.expires_at == 0 then false else ltb r.expires_at now

pub record BeginResult : Type 0 where
  pub found : Record
  pub fresh : Bool

abbrev pub zero_begin : BeginResult
zero_begin = record { found = zero_record; fresh = false }

pub record MemoryStore : Type 0 where
  pub opts : Limits
  pub m : Dict Record
  pub ops : ℕ

abbrev pub minute : ℕ
minute = 60 * 10 ^ 9

unfoldable pub new_memory_store : Options → MemoryStore
new_memory_store o = record {
  opts = record {
    max_entries = or_default o.max_entries 200000;
    max_result_bytes = or_default o.max_result_bytes (1024 * 1024);
    default_ttl = or_default o.default_ttl (5 * minute);
    prune_every = or_default o.prune_every 1024;
  };
  m = [];
  ops = 0;
}

unfoldable pub new_in_progress : Text → ℕ → ℕ → Text → Record
new_in_progress key now ttl token = record zero_record {
  key = key;
  state = in_progress;
  owner_token = token;
  created_at = now;
  updated_at = now;
  expires_at = now + ttl;
}

unfoldable pub prune_locked : MemoryStore → ℕ → MemoryStore
prune_locked s now = record s { m = keep (λ r. not (is_expired r now)) s.m }

-- What the calls test before they take the mutex: the context, then the key.
unfoldable pub refused : Option Error → Text → Option Error
refused (some e) key = some e
refused none key = elim (validate_key key) [ some e ↦ some err_invalid | none ↦ none ]

unfoldable pub start : MemoryStore → Text → ℕ → ℕ → Text → MemoryStore × BeginResult × Option Error
unfolding new_in_progress
start s key now ttl token =
    let nr = new_in_progress key now ttl token in
    (record s { m = insert key nr s.m }, record { found = nr; fresh = true }, none)

-- No record: at the limit, prune first.
unfoldable pub begin_new :
    MemoryStore → Text → ℕ → ℕ → Text → MemoryStore × BeginResult × Option Error
unfolding start prune_locked
begin_new s key now ttl token =
    let s' = prune_locked s now in
    if leb s.opts.max_entries (length s.m)
    then if leb s.opts.max_entries (length s'.m)
      then (s', zero_begin, some err_too_large)
      else start s' key now ttl token
    else start s key now ttl token

begin_state :
    State → Record → MemoryStore → Text → ℕ → ℕ → Text → MemoryStore × BeginResult × Option Error
unfolding start
begin_state complete r s key now ttl token = (s, record { found = r; fresh = false }, none)
begin_state failed r s key now ttl token = (s, record { found = r; fresh = false }, none)
begin_state in_progress r s key now ttl token =
    (s, record { found = r; fresh = false }, some err_conflict)
begin_state (other w) r s key now ttl token = start s key now ttl token

unfoldable pub begin_found :
    Option Record → MemoryStore → Text → ℕ → ℕ → Text → MemoryStore × BeginResult × Option Error
unfolding begin_new begin_state start
begin_found none s key now ttl token = begin_new s key now ttl token
begin_found (some r) s key now ttl token =
    if is_expired r now
    then start s key now ttl token
    else begin_state r.state r s key now ttl token

-- The counter of operations, a uint64, and the pruning at every so many.
unfoldable pub count_op : MemoryStore → ℕ → MemoryStore
unfolding prune_locked
count_op s now =
    let n = (s.ops + 1) % 2 ^ 64 in
    let s' = record s { ops = n } in if n % s.opts.prune_every == 0 then prune_locked s' now else s'

unfoldable pub try_begin :
    MemoryStore → Option Error → Text → ℤ → ℕ → Text → MemoryStore × BeginResult × Option Error
try_begin s ctx key ttl now token = elim (refused ctx key) [
  | some e ↦ (s, zero_begin, some e)
  | none ↦
      let s' = count_op s now in
      begin_found (lookup key s'.m) s' key now (or_default ttl s.opts.default_ttl) token
]

unfoldable pub is_in_progress : State → Bool
is_in_progress in_progress = true
is_in_progress _ = false

-- What `Touch`, `Complete` and `Fail` do under the mutex, with the update that each makes.
unfoldable pub update_owned :
    Option Record
    → MemoryStore
    → Text
    → Text
    → ℕ
    → (Record → Record)
    → MemoryStore × Record × Option Error
unfolding is_in_progress
update_owned none s key token now f = (s, zero_record, some err_expired)
update_owned (some r) s key token now f =
    if is_expired r now
    then (record s { m = remove key s.m }, zero_record, some err_expired)
    else if not (is_in_progress r.state)
    then (s, r, some err_conflict)
    else if not (text_eq r.owner_token token)
    then (s, r, some err_not_owner)
    else (record s { m = insert key (f r) s.m }, f r, none)

abbrev pub touched : ℕ → ℕ → Record → Record
touched now ttl r = record r { updated_at = now; expires_at = now + ttl }

unfoldable pub touch :
    MemoryStore → Option Error → Text → Text → ℤ → ℕ → MemoryStore × Record × Option Error
touch s ctx key owner_token ttl now =
    let token = trim_space owner_token in
    elim (refused ctx key) [
      | some e ↦ (s, zero_record, some e)
      | none ↦
          if is_empty token
          then (s, zero_record, some err_invalid)
          else update_owned (lookup key s.m) s key token now
              (touched now (or_default ttl s.opts.default_ttl))
    ]

abbrev pub failed_with : ℕ → Text → Text → Record → Record
failed_with now code msg r = record r {
  state = failed;
  owner_token = [];
  updated_at = now;
  error_code = code;
  error_msg = msg;
  result_bytes = [];
  result_hash = [];
}

unfoldable pub fail :
    MemoryStore → Option Error → Text → Text → Text → Text → ℕ → MemoryStore × Record × Option Error
fail s ctx key owner_token code msg now =
    let token = trim_space owner_token in
    elim (refused ctx key) [
      | some e ↦ (s, zero_record, some e)
      | none ↦
          if is_empty token
          then (s, zero_record, some err_invalid)
          else update_owned (lookup key s.m) s key token now
              (failed_with now (take 64 (trim_space code)) (take 512 (trim_space msg)))
    ]

abbrev get_found :
    Option Record → MemoryStore → Text → ℕ → MemoryStore × Record × Bool × Option Error
get_found none s key now = (s, zero_record, false, none)
get_found (some r) s key now =
    if is_expired r now
    then (record s { m = remove key s.m }, zero_record, false, none)
    else (s, r, true, none)

unfoldable pub get :
    MemoryStore → Option Error → Text → ℕ → MemoryStore × Record × Bool × Option Error
get s ctx key now = elim (refused ctx key) [
  | some e ↦ (s, zero_record, false, some e)
  | none ↦ get_found (lookup key s.m) s key now
]

unfoldable pub delete : MemoryStore → Option Error → Text → MemoryStore × Option Error
delete s ctx key = elim (refused ctx key) [
  | some e ↦ (s, some e)
  | none ↦ (record s { m = remove key s.m }, none)
]

unfoldable pub sweep : MemoryStore → Option Error → ℕ → MemoryStore × ℕ × Option Error
unfolding prune_locked
sweep s (some e) now = (s, 0, some e)
sweep s none now = let s' = prune_locked s now in (s', length s.m - length s'.m, none)

-- A call of the store.
pub data Op : Type 0 where
  begins : Option Error → Text → ℤ → ℕ → Text → Op
  touches : Option Error → Text → Text → ℤ → ℕ → Op
  completes : Option Error → Text → Text → List ℕ → ℕ → Op
  fails : Option Error → Text → Text → Text → Text → ℕ → Op
  gets : Option Error → Text → ℕ → Op
  deletes : Option Error → Text → Op
  sweeps : Option Error → ℕ → Op

module _ (sha256 : List ℕ → List ℕ) where
  abbrev pub completed : ℕ → List ℕ → Record → Record
  completed now result r = record r {
    state = complete;
    owner_token = [];
    updated_at = now;
    result_bytes = result;
    result_hash = hex_encode (sha256 result);
  }

  unfoldable pub complete_key :
      MemoryStore → Option Error → Text → Text → List ℕ → ℕ → MemoryStore × Record × Option Error
  complete_key s ctx key owner_token result now =
      let token = trim_space owner_token in
      elim (refused ctx key) [
        | some e ↦ (s, zero_record, some e)
        | none ↦
            if is_empty token
            then (s, zero_record, some err_invalid)
            else if ltb s.opts.max_result_bytes (length result)
            then (s, zero_record, some err_too_large)
            else update_owned (lookup key s.m) s key token now (completed now result)
      ]

  -- The store and the error after a call.
  unfoldable pub perform : MemoryStore → Op → MemoryStore × Option Error
  perform s (begins ctx key ttl now token) =
      let (s', r, e) = try_begin s ctx key ttl now token in (s', e)
  perform s (touches ctx key token ttl now) =
      let (s', r, e) = touch s ctx key token ttl now in (s', e)
  perform s (completes ctx key token result now) =
      let (s', r, e) = complete_key s ctx key token result now in (s', e)
  perform s (fails ctx key token code msg now) =
      let (s', r, e) = fail s ctx key token code msg now in (s', e)
  perform s (gets ctx key now) = let (s', r, b, e) = get s ctx key now in (s', e)
  perform s (deletes ctx key) = delete s ctx key
  perform s (sweeps ctx now) = let (s', n, e) = sweep s ctx now in (s', e)

  unfoldable pub run : MemoryStore → List Op → MemoryStore
  run s [] = s
  run s (op ∷ ops) = run (perform s op).0 ops
