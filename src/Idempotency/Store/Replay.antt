-- ===== src/Idempotency/Store/Replay.antt =====
-- What a caller gets who comes second.
use chartly.Prelude.{
  ℕ, ◌+◌, ◌≤◌, ◌≡◌, refl, ap, sym, ◌∙◌, true, false, Bool-cases, inl, inr, Option, Option-cases,
  none, some, List, [], ◌∷◌, All, ltb, length, arith,
}
use chartly.Prelude.Int.{ℤ, or_default}
use chartly.Text.{Text, text_eq, is_empty, trim_space}
use chartly.Text.Laws.{text_eq_refl}
use chartly.Dict.{lookup, lookup-insert}
use chartly.Idempotency.{Error, err_conflict}
use chartly.Idempotency.Encode.{hex_encode}
use chartly.Idempotency.Store.{
  State, in_progress, complete, Record, MemoryStore, is_expired, prune_locked, refused,
  new_in_progress, start, begin_new, begin_found, count_op, try_begin, is_in_progress, update_owned,
  get, completed, complete_key, Op, begins, touches, completes, fails, gets, deletes, sweeps,
  perform, run,
}
use chartly.Idempotency.Store.Invariant.{Inv}
use chartly.Idempotency.Store.Reachable.{perform-Inv, run-Inv}
use chartly.Idempotency.Store.Lease.{
  owns, IsForeign, is_expired_before, lookup-count_op, lookup-run,
}

abbrev reply_error : State → Option Error
reply_error in_progress = some err_conflict
reply_error _ = none

-- What `TryBegin` and `Get` say of a known record that has not expired.
module _ (sha256 : List ℕ → List ℕ) (s : MemoryStore) (v : Inv sha256 s) (k : Text) (r : Record)
    (e : lookup k s.m ≡ some r) (now : ℕ) (before : now ≤ r.expires_at) where
  accepted : refused none k ≡ none
  unfolding refused
  accepted = ground (arith, (v.each k r e).valid)

  try_begin_known :
      (ttl : ℤ) (token : Text)
      → let (s', b, x) = try_begin s none k ttl now token in
        (b.found ≡ r) × (b.fresh ≡ false) × (x ≡ reply_error r.state)
  unfolding try_begin
  try_begin_known ttl token =
      rw (accepted, try_begin)
        (rw (lookup-count_op k r (v.each k r e).known now before s v.unique e) (
          unfold begin_found in
          ground (arith, is_expired_before r now before, (v.each k r e).known)))

  get_known : (get s none k now).1 ≡ r
  unfolding get
  get_known = rw (accepted, get) (rw e (ground (arith, is_expired_before r now before)))

start_found :
    (s : MemoryStore) (key : Text) (now ttl : ℕ) (token : Text)
    → lookup key (start s key now ttl token).0.m ≡ some (new_in_progress key now ttl token)
unfolding start
start_found s key now ttl token =
    ground (arith, lookup-insert key key (new_in_progress key now ttl token) s.m, text_eq_refl key)

-- A fresh result is a new record, stored under the key.
begin_found_fresh :
    (o : Option Record) (s : MemoryStore) (key : Text) (now ttl : ℕ) (token : Text)
    → (begin_found o s key now ttl token).1.fresh ≡ true
    → let r = new_in_progress key now ttl token in
      ((begin_found o s key now ttl token).1.found ≡ r)
      × (lookup key (begin_found o s key now ttl token).0.m ≡ some r)
unfolding begin_found begin_new start
begin_found_fresh o s key now ttl token h =
    ground
      (arith, start_found s key now ttl token, start_found (prune_locked s now) key now ttl token)

try_begin_fresh :
    (s : MemoryStore) (key : Text) (ttl : ℤ) (now : ℕ) (token : Text)
    → (try_begin s none key ttl now token).1.fresh ≡ true
    → let r = new_in_progress key now (or_default ttl s.opts.default_ttl) token in
      ((try_begin s none key ttl now token).1.found ≡ r)
      × (lookup key (try_begin s none key ttl now token).0.m ≡ some r)
unfolding try_begin
try_begin_fresh s key ttl now token = elim (Option-cases (refused none key)) [
  | inr (e, x) ↦ rw (x, try_begin) (λ h. absurd (ground arith))
  | inl x ↦
      rw (x, try_begin)
        (begin_found_fresh (lookup key (count_op s now).m) (count_op s now) key now
          (or_default ttl s.opts.default_ttl) token)
]

-- A successful update stores the record that it returns, made from the one that was there.
update_owned_succeeds :
    (o : Option Record) (s : MemoryStore) (key token : Text) (now : ℕ) (f : Record → Record)
    → lookup key s.m ≡ o
    → (update_owned o s key token now f).2 ≡ none
    → (r : Record) × (lookup key s.m ≡ some r)
      × (is_expired r now ≡ false)
      × ((update_owned o s key token now f).1 ≡ f r)
      × (lookup key (update_owned o s key token now f).0.m ≡ some (f r))
unfolding update_owned
update_owned_succeeds none s key token now f q h = absurd (ground arith)
update_owned_succeeds (some r) s key token now f q h = (
  r,
  q,
  ground arith,
  ground arith,
  ground (arith, lookup-insert key key (f r) s.m, text_eq_refl key),
)

-- A call that does not delete `k`, made by the time `t`.
abbrev pub IsKept : Text → ℕ → Op → Type 0
IsKept k t (begins ctx key ttl now token) = now ≤ t
IsKept k t (touches ctx key token ttl now) = now ≤ t
IsKept k t (completes ctx key token result now) = now ≤ t
IsKept k t (fails ctx key token code msg now) = now ≤ t
IsKept k t (gets ctx key now) = now ≤ t
IsKept k t (deletes ctx key) = text_eq key k ≡ false
IsKept k t (sweeps ctx now) = now ≤ t

-- Nobody owns a record that is not in progress.
not-owns :
    (k : Text) (r : Record) (key token : Text) → r.state ≡ complete → owns k r key token ≡ false
unfolding is_in_progress
not-owns k r key token h = ground arith

kept-IsForeign :
    (k : Text) (r : Record) (op : Op)
    → r.state ≡ complete
    → IsKept k r.expires_at op
    → IsForeign k r op
kept-IsForeign k r (begins ctx key ttl now token) c h = h
kept-IsForeign k r (touches ctx key token ttl now) c h = (h, not-owns k r key token c)
kept-IsForeign k r (completes ctx key token result now) c h = (h, not-owns k r key token c)
kept-IsForeign k r (fails ctx key token code msg now) c h = (h, not-owns k r key token c)
kept-IsForeign k r (gets ctx key now) c h = h
kept-IsForeign k r (deletes ctx key) c h = h
kept-IsForeign k r (sweeps ctx now) c h = h

kept-IsForeign-All :
    (k : Text) (r : Record) (ops : List Op)
    → r.state ≡ complete
    → All (IsKept k r.expires_at) ops
    → All (IsForeign k r) ops
kept-IsForeign-All k r [] c h = tt
kept-IsForeign-All k r (op ∷ ops) c h =
    (kept-IsForeign k r op c h.0, kept-IsForeign-All k r ops c h.1)

module _ (sha256 : List ℕ → List ℕ) where
  -- Mutual exclusion: once `TryBegin` has granted a lease, and until the lease's time to live has
  -- passed, every further `TryBegin` for the key is refused with a conflict and shows the holder's
  -- record, whatever calls come between that do not bring the holder's token and do not delete the
  -- key.
  pub lease_is_exclusive :
      (s : MemoryStore) (key : Text) (ttl : ℤ) (t : ℕ) (token : Text) (ops : List Op) (now : ℕ)
      (ttl' : ℤ) (token' : Text)
      → let (s₁, b, e) = try_begin s none key ttl t token in
        Inv sha256 s
        → b.fresh ≡ true
        → All (IsForeign key b.found) ops
        → now ≤ t + or_default ttl s.opts.default_ttl
        → let (s₂, b', e') = try_begin (run sha256 s₁ ops) none key ttl' now token' in
          (b'.fresh ≡ false)
          × (e' ≡ some err_conflict)
          × (b'.found ≡ b.found)
          × (b.found.owner_token ≡ token)
  unfolding new_in_progress
  lease_is_exclusive s key ttl t token ops now ttl' token' v fresh foreign early =
      let r = new_in_progress key t (or_default ttl s.opts.default_ttl) token in
      let (found, stored) = try_begin_fresh s key ttl t token fresh in
      let s₁ = (try_begin s none key ttl t token).0 in
      let v₁ : Inv sha256 s₁ =
        unfold perform in perform-Inv sha256 s (begins none key ttl t token) v in
      let kept : lookup key (run sha256 s₁ ops).m ≡ some r =
        lookup-run key r (inl refl) sha256 s₁ ops v₁ (rw found at foreign) stored in
      let (same, stale, conflict) =
        try_begin_known sha256 (run sha256 s₁ ops) (run-Inv sha256 s₁ ops v₁) key r kept now early
          ttl' token' in
      (stale, conflict, same ∙ sym found, ap (λ (x : Record). x.owner_token) found)

  complete_key_succeeds :
      (s : MemoryStore) (ctx : Option Error) (key token : Text) (result : List ℕ) (t : ℕ)
      → (complete_key sha256 s ctx key token result t).2 ≡ none
      → (r : Record) × ((complete_key sha256 s ctx key token result t).1
          ≡ completed sha256 t result r)
        × (lookup key (complete_key sha256 s ctx key token result t).0.m
            ≡ some (completed sha256 t result r))
  unfolding complete_key
  complete_key_succeeds s ctx key token result t h = elim (Option-cases (refused ctx key)) [
    | inr (e, x) ↦ absurd (ground arith)
    | inl x ↦ elim (Bool-cases (is_empty (trim_space token))) [
      | inl y ↦ absurd (ground arith)
      | inr y ↦ elim (Bool-cases (ltb s.opts.max_result_bytes (length result))) [
        | inl z ↦ absurd (ground arith)
        | inr z ↦
            let (r, found, live, made, stored) =
              update_owned_succeeds (lookup key s.m) s key (trim_space token) t
                (completed sha256 t result) refl (ground arith) in
            (r, ground arith, ground arith)
      ]
    ]
  ]

  -- Replay: once `Complete` has succeeded, and until the record expires, every later `TryBegin` for
  -- the key starts no work: it returns, with no error, the record that `Complete` returned, and `Get`
  -- finds that record too. The record carries the result and its hash, whatever calls come between
  -- that do not delete the key.
  pub result_is_replayed :
      (s : MemoryStore) (ctx : Option Error) (key token : Text) (result : List ℕ) (t : ℕ)
      (ops : List Op) (now : ℕ) (ttl : ℤ) (token' : Text)
      → let (s₁, r, e) = complete_key sha256 s ctx key token result t in
        Inv sha256 s
        → e ≡ none
        → All (IsKept key r.expires_at) ops
        → now ≤ r.expires_at
        → let s₂ = run sha256 s₁ ops in
          let (s₃, b, x) = try_begin s₂ none key ttl now token' in
          (b.found ≡ r)
          × (b.fresh ≡ false)
          × (x ≡ none)
          × ((get s₂ none key now).1 ≡ r)
          × (r.state ≡ complete)
          × (r.result_bytes ≡ result)
          × (r.result_hash ≡ hex_encode (sha256 result))
  result_is_replayed s ctx key token result t ops now ttl token' v done kept early =
      let (r₀, made, stored) = complete_key_succeeds s ctx key token result t done in
      let s₁ = (complete_key sha256 s ctx key token result t).0 in
      let r : Record = completed sha256 t result r₀ in
      let v₁ : Inv sha256 s₁ =
        unfold perform in perform-Inv sha256 s (completes ctx key token result t) v in
      let still : lookup key (run sha256 s₁ ops).m ≡ some r =
        lookup-run key r (inr (inl refl)) sha256 s₁ ops v₁
          (kept-IsForeign-All key r ops refl (rw made at kept)) stored in
      let v₂ = run-Inv sha256 s₁ ops v₁ in
      let before : now ≤ r.expires_at = rw made at early in
      let (same, stale, quiet) =
        try_begin_known sha256 (run sha256 s₁ ops) v₂ key r still now before ttl token' in
      (
        same ∙ sym made,
        stale,
        quiet,
        get_known sha256 (run sha256 s₁ ops) v₂ key r still now before ∙ sym made,
        ap (λ (x : Record). x.state) made,
        ap (λ (x : Record). x.result_bytes) made,
        ap (λ (x : Record). x.result_hash) made,
      )
