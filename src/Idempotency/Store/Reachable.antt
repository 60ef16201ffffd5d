-- ===== src/Idempotency/Store/Reachable.antt =====
-- The invariant over the calls of the store.
use chartly.Prelude.{
  ℕ, ◌+◌, ◌%◌, ◌^◌, ◌<◌, ◌≡◌, refl, inl, inr, Bool-cases, Option, Option-cases, none, some, List,
  [], ◌∷◌, ltb, ◌==◌, length, length-take, arith,
}
use chartly.Prelude.Int.{ℤ, or_default, or_default-pos}
use chartly.Text.{Text, text_eq, is_empty, trim_space}
use chartly.Dict.{lookup}
use chartly.Idempotency.{Error}
use chartly.Idempotency.Keys.{validate_key}
use chartly.Idempotency.Store.{
  State, in_progress, complete, failed, other, Options, Record, MemoryStore, is_expired,
  new_memory_store, refused, start, begin_state, begin_found, count_op, try_begin, is_in_progress,
  update_owned, touch, fail, get_found, get, delete, sweep, complete_key, Op, begins, touches,
  completes, fails, gets, deletes, sweeps, perform, run,
}
use chartly.Idempotency.Store.Invariant.{
  refused-valid, Fits, Inv, new_memory_store-Inv, prune_locked-Inv, remove-Inv, insert-Inv,
  start-Inv, begin_new-Inv,
}

module _ (sha256 : List ℕ → List ℕ) where
  pub count_op-Inv : (s : MemoryStore) (now : ℕ) → Inv sha256 s → Inv sha256 (count_op s now)
  unfolding count_op
  count_op-Inv s now v = elim (Bool-cases ((s.ops + 1) % 2 ^ 64 % s.opts.prune_every == 0)) [
    | inl e ↦ rw e (prune_locked-Inv sha256 _ now (counted ((s.ops + 1) % 2 ^ 64)))
    | inr e ↦ rw e (counted ((s.ops + 1) % 2 ^ 64))
  ]
    where
      counted : (n : ℕ) → Inv sha256 (record s { ops = n })
      counted n = record {
        positive = v.positive;
        unique = v.unique;
        bounded = v.bounded;
        each = v.each;
      }

  opts-count_op : (s : MemoryStore) (now : ℕ) → (count_op s now).opts ≡ s.opts
  unfolding count_op
  opts-count_op s now = ground arith

  begin_found-Inv :
      (key : Text) (valid : validate_key key ≡ none) (now ttl : ℕ) (token : Text)
      → 0 < ttl
      → (s : MemoryStore) (o : Option Record) → lookup key s.m ≡ o
      → Inv sha256 s
      → Inv sha256 (begin_found o s key now ttl token).0
  unfolding begin_found
  begin_found-Inv key valid now ttl token p s none e v =
      begin_new-Inv sha256 key valid now ttl token p s v
  begin_found-Inv key valid now ttl token p s (some r) e v = elim (Bool-cases (is_expired r now)) [
    | inl x ↦ rw x fresh
    | inr x ↦ rw x (go r.state)
  ]
    where
      fresh : Inv sha256 (start s key now ttl token).0
      fresh = start-Inv sha256 key valid now ttl token p s v (inl (r, e))

      go : (st : State) → Inv sha256 (begin_state st r s key now ttl token).0
      go in_progress = v
      go complete = v
      go failed = v
      go (other w) = fresh

  try_begin-Inv :
      (s : MemoryStore) (ctx : Option Error) (key : Text) (ttl : ℤ) (now : ℕ) (token : Text)
      → Inv sha256 s
      → Inv sha256 (try_begin s ctx key ttl now token).0
  unfolding try_begin
  try_begin-Inv s ctx key ttl now token v = elim (Option-cases (refused ctx key)) [
    | inr (e, h) ↦ rw (h, try_begin) v
    | inl h ↦
        rw (h, try_begin)
          (begin_found-Inv key (refused-valid ctx key h) now (or_default ttl s.opts.default_ttl)
            token (or_default-pos ttl s.opts.default_ttl v.positive.ttl) (count_op s now)
            (lookup key (count_op s now).m) refl (count_op-Inv s now v))
  ]

  update_owned-Inv :
      (s : MemoryStore) (key token : Text) (now : ℕ) (f : Record → Record)
      → Inv sha256 s
      → ((r : Record)
          → r.state ≡ in_progress
          → Fits sha256 s.opts key r
          → Fits sha256 s.opts key (f r))
      → (o : Option Record) → lookup key s.m ≡ o
      → Inv sha256 (update_owned o s key token now f).0
  unfolding update_owned
  update_owned-Inv s key token now f v keep none e = v
  update_owned-Inv s key token now f v keep (some r) e = elim (Bool-cases (is_expired r now)) [
    | inl x ↦ rw x (remove-Inv sha256 s key v)
    | inr x ↦ rw x (elim (Bool-cases (is_in_progress r.state)) [
      | inr y ↦ rw y v
      | inl y ↦ rw y (elim (Bool-cases (text_eq r.owner_token token)) [
        | inr z ↦ rw z v
        | inl z ↦ rw z (
            insert-Inv sha256 s key (f r) v (inl (r, e))
              (keep r (unfold is_in_progress in ground arith) (v.each key r e)))
      ])
    ])
  ]

  touch-Inv :
      (s : MemoryStore) (ctx : Option Error) (key owner_token : Text) (ttl : ℤ) (now : ℕ)
      → Inv sha256 s
      → Inv sha256 (touch s ctx key owner_token ttl now).0
  unfolding touch
  touch-Inv s ctx key owner_token ttl now v = elim (Option-cases (refused ctx key)) [
    | inr (e, h) ↦ rw (h, touch) v
    | inl h ↦
        rw (h, touch)
          (elim (Bool-cases (is_empty (trim_space owner_token))) [
            | inl b ↦ rw b v
            | inr b ↦ rw b (
                update_owned-Inv s key _ now _ v
                  (λ r p f. ground (arith, or_default-pos ttl s.opts.default_ttl v.positive.ttl))
                  (lookup key s.m) refl)
          ])
  ]

  fail-Inv :
      (s : MemoryStore) (ctx : Option Error) (key owner_token code msg : Text) (now : ℕ)
      → Inv sha256 s
      → Inv sha256 (fail s ctx key owner_token code msg now).0
  unfolding fail
  fail-Inv s ctx key owner_token code msg now v = elim (Option-cases (refused ctx key)) [
    | inr (e, h) ↦ rw (h, fail) v
    | inl h ↦
        rw (h, fail)
          (elim (Bool-cases (is_empty (trim_space owner_token))) [
            | inl b ↦ rw b v
            | inr b ↦ rw b (
                update_owned-Inv s key _ now _ v
                  (λ r p f.
                    ground
                      (arith, length-take 64 (trim_space code), length-take 512 (trim_space msg)))
                  (lookup key s.m) refl)
          ])
  ]

  complete_key-Inv :
      (s : MemoryStore) (ctx : Option Error) (key owner_token : Text) (result : List ℕ) (now : ℕ)
      → Inv sha256 s
      → Inv sha256 (complete_key sha256 s ctx key owner_token result now).0
  unfolding complete_key
  complete_key-Inv s ctx key owner_token result now v = elim (Option-cases (refused ctx key)) [
    | inr (e, h) ↦ rw (h, complete_key) v
    | inl h ↦
        rw (h, complete_key)
          (elim (Bool-cases (is_empty (trim_space owner_token))) [
            | inl b ↦ rw b v
            | inr b ↦ rw b (elim (Bool-cases (ltb s.opts.max_result_bytes (length result))) [
              | inl c ↦ rw c v
              | inr c ↦
                  rw c
                    (update_owned-Inv s key _ now _ v (λ r p f. ground arith) (lookup key s.m) refl)
            ])
          ])
  ]

  get-Inv :
      (s : MemoryStore) (ctx : Option Error) (key : Text) (now : ℕ)
      → Inv sha256 s
      → Inv sha256 (get s ctx key now).0
  unfolding get
  get-Inv s ctx key now v = elim (Option-cases (refused ctx key)) [
    | inr (e, h) ↦ rw (h, get) v
    | inl h ↦ rw (h, get) (go (lookup key s.m))
  ]
    where
      go : (o : Option Record) → Inv sha256 (get_found o s key now).0
      go none = v
      go (some r) = elim (Bool-cases (is_expired r now)) [
        | inl x ↦ rw x (remove-Inv sha256 s key v)
        | inr x ↦ rw x v
      ]

  -- Every call keeps the invariant.
  pub perform-Inv : (s : MemoryStore) (op : Op) → Inv sha256 s → Inv sha256 (perform sha256 s op).0
  unfolding perform
  perform-Inv s (begins ctx key ttl now token) v = try_begin-Inv s ctx key ttl now token v
  perform-Inv s (touches ctx key token ttl now) v = touch-Inv s ctx key token ttl now v
  perform-Inv s (completes ctx key token result now) v =
      complete_key-Inv s ctx key token result now v
  perform-Inv s (fails ctx key token code msg now) v = fail-Inv s ctx key token code msg now v
  perform-Inv s (gets ctx key now) v = get-Inv s ctx key now v
  perform-Inv s (deletes ctx key) v = elim (Option-cases (refused ctx key)) [
    | inr (e, h) ↦ unfold delete in rw (h, delete) v
    | inl h ↦ unfold delete in rw (h, delete) (remove-Inv sha256 s key v)
  ]
  perform-Inv s (sweeps (some e) now) v = unfold sweep in v
  perform-Inv s (sweeps none now) v = unfold sweep in prune_locked-Inv sha256 s now v

  pub run-Inv : (s : MemoryStore) (ops : List Op) → Inv sha256 s → Inv sha256 (run sha256 s ops)
  unfolding run
  run-Inv s [] v = v
  run-Inv s (op ∷ ops) v = run-Inv (perform sha256 s op).0 ops (perform-Inv s op v)

  -- After any calls, from any options, the store has at most as many entries as its limit, each key
  -- once, and every entry is well formed: it is stored under its own valid key and has an expiry;
  -- it is in progress, complete or failed, and has an owner only in progress; a complete one
  -- carries the hash of its result, no result exceeds the limit, and a failed one has none.
  pub run-new_memory_store-Inv :
      (o : Options) (ops : List Op) → Inv sha256 (run sha256 (new_memory_store o) ops)
  run-new_memory_store-Inv o ops = run-Inv (new_memory_store o) ops (new_memory_store-Inv sha256 o)
