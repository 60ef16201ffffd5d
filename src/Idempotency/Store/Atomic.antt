-- ===== src/Idempotency/Store/Atomic.antt =====
-- What a call that returns an error leaves as it was.
use chartly.Prelude.{
  ℕ, ◌≤◌, ◌≡◌, refl, ◌∙◌, inl, inr, Option, Option-cases, none, some, List, take, arith,
}
use chartly.Prelude.Int.{ℤ, or_default}
use chartly.Text.{Text, trim_space}
use chartly.Dict.{lookup}
use chartly.Idempotency.{Error}
use chartly.Idempotency.Store.{
  Record, MemoryStore, touched, failed_with, completed, refused, count_op, try_begin, touch, fail,
  get_found, get, delete, sweep, complete_key, Op, begins, touches, completes, fails, gets, deletes,
  sweeps, perform,
}
use chartly.Idempotency.Store.Invariant.{Inv}
use chartly.Idempotency.Store.Reachable.{count_op-Inv}
use chartly.Idempotency.Store.View.{
  live, IsBy, live-count_op, live-prune_locked, live-remove_expired, begin_found_error,
  update_owned_error,
}

module _ (sha256 : List ℕ → List ℕ) (now : ℕ) (k : Text) where
  try_begin_error :
      (s : MemoryStore) (ctx : Option Error) (key : Text) (ttl : ℤ) (t : ℕ) (token : Text)
      {e : Error}
      → t ≤ now
      → Inv sha256 s
      → (try_begin s ctx key ttl t token).2 ≡ some e
      → live (try_begin s ctx key ttl t token).0 now k ≡ live s now k
  unfolding try_begin
  try_begin_error s ctx key ttl t token by v = elim (Option-cases (refused ctx key)) [
    | inr (e, h) ↦ rw (h, try_begin) (λ _. refl)
    | inl h ↦
        rw (h, try_begin)
          λ x.
            begin_found_error t now by k (count_op s t) key (or_default ttl s.opts.default_ttl)
              token (lookup key (count_op s t).m) (count_op-Inv sha256 s t v).unique x
            ∙ live-count_op t now by k s v.unique
  ]

  touch_error :
      (s : MemoryStore) (ctx : Option Error) (key token : Text) (ttl : ℤ) (t : ℕ) {e : Error}
      → t ≤ now
      → (touch s ctx key token ttl t).2 ≡ some e
      → live (touch s ctx key token ttl t).0 now k ≡ live s now k
  unfolding touch
  touch_error s ctx key token ttl t {e} by h = ground (
    arith,
    update_owned_error t now by k s key (trim_space token)
        (touched t (or_default ttl s.opts.default_ttl)) {e = e} (lookup key s.m) refl,
  )

  fail_error :
      (s : MemoryStore) (ctx : Option Error) (key token code msg : Text) (t : ℕ) {e : Error}
      → t ≤ now
      → (fail s ctx key token code msg t).2 ≡ some e
      → live (fail s ctx key token code msg t).0 now k ≡ live s now k
  unfolding fail
  fail_error s ctx key token code msg t {e} by h = ground (
    arith,
    update_owned_error t now by k s key (trim_space token)
        (failed_with t (take 64 (trim_space code)) (take 512 (trim_space msg))) {e = e}
        (lookup key s.m) refl,
  )

  complete_key_error :
      (s : MemoryStore) (ctx : Option Error) (key token : Text) (result : List ℕ) (t : ℕ)
      {e : Error}
      → t ≤ now
      → (complete_key sha256 s ctx key token result t).2 ≡ some e
      → live (complete_key sha256 s ctx key token result t).0 now k ≡ live s now k
  unfolding complete_key
  complete_key_error s ctx key token result t {e} by h = ground (
    arith,
    update_owned_error t now by k s key (trim_space token) (completed sha256 t result) {e = e}
        (lookup key s.m) refl,
  )

  -- A read leaves the view as it is, with or without an error.
  get_quiet :
      (s : MemoryStore) (ctx : Option Error) (key : Text) (t : ℕ)
      → t ≤ now
      → live (get s ctx key t).0 now k ≡ live s now k
  unfolding get
  get_quiet s ctx key t by = elim (Option-cases (refused ctx key)) [
    | inr (e, h) ↦ rw (h, get)
    | inl h ↦ rw (h, get) (go (lookup key s.m) refl)
  ]
    where
      go :
          (o : Option Record)
          → lookup key s.m ≡ o
          → live (get_found o s key t).0 now k ≡ live s now k
      go none q = refl
      go (some r) q = ground (arith, live-remove_expired t now by k s key r q)

  sweep_quiet :
      (s : MemoryStore) (ctx : Option Error) (t : ℕ)
      → t ≤ now
      → Inv sha256 s
      → live (sweep s ctx t).0 now k ≡ live s now k
  unfolding sweep
  sweep_quiet s (some e) t by v = refl
  sweep_quiet s none t by v = live-prune_locked t now by k s v.unique

  delete_error :
      (s : MemoryStore) (ctx : Option Error) (key : Text) {e : Error}
      → (delete s ctx key).1 ≡ some e
      → live (delete s ctx key).0 now k ≡ live s now k
  unfolding delete
  delete_error s ctx key h = ground arith

  -- A call that returns an error changes nothing that can be seen from then on: at every time from
  -- its own on, each key has the entry that it had. So a refused, conflicting, expired or oversized
  -- call has no effect, though it may have dropped expired entries.
  pub perform_error :
      (s : MemoryStore) (op : Op) {e : Error}
      → IsBy now op
      → Inv sha256 s
      → (perform sha256 s op).1 ≡ some e
      → live (perform sha256 s op).0 now k ≡ live s now k
  unfolding perform
  perform_error s (begins ctx key ttl t token) by v h = try_begin_error s ctx key ttl t token by v h
  perform_error s (touches ctx key token ttl t) by v h = touch_error s ctx key token ttl t by h
  perform_error s (completes ctx key token result t) by v h =
      complete_key_error s ctx key token result t by h
  perform_error s (fails ctx key token code msg t) by v h =
      fail_error s ctx key token code msg t by h
  perform_error s (gets ctx key t) by v h = get_quiet s ctx key t by
  perform_error s (deletes ctx key) by v h = delete_error s ctx key h
  perform_error s (sweeps ctx t) by v h = sweep_quiet s ctx t by v
