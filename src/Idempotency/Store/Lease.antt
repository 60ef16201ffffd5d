-- ===== src/Idempotency/Store/Lease.antt =====
-- What the calls of other owners do to a record until it expires.
use chartly.Prelude.{
  ℕ, ◌+◌, ◌%◌, ◌^◌, ◌≤◌, ◌≡◌, refl, ◌⊎◌, Bool, false, ◌&&◌, Bool-cases, inl, inr, Option,
  Option-cases, none, some, List, [], ◌∷◌, All, leb, ◌==◌, length, take, arith,
}
use chartly.Prelude.Int.{ℤ, or_default}
use chartly.Text.{Text, text_eq, trim_space}
use chartly.Text.Laws.{text_eq_iff}
use chartly.Dict.{lookup, insert, IsUnique, lookup-insert, lookup-remove, lookup-keep}
use chartly.Idempotency.{Error}
use chartly.Idempotency.Store.{
  in_progress, complete, failed, Record, MemoryStore, is_expired, prune_locked, refused,
  new_in_progress, start, begin_new, begin_found, count_op, try_begin, is_in_progress, update_owned,
  touched, touch, failed_with, fail, get_found, get, delete, sweep, completed, complete_key, Op,
  begins, touches, completes, fails, gets, deletes, sweeps, perform, run,
}
use chartly.Idempotency.Store.Invariant.{Inv}
use chartly.Idempotency.Store.Reachable.{count_op-Inv, perform-Inv}
use chartly.Idempotency.Store.View.{is_live}

-- The token is the one that owns the record of `k`.
abbrev pub owns : Text → Record → Text → Text → Bool
owns k r key token =
    text_eq key k && (is_in_progress r.state && text_eq r.owner_token (trim_space token))

-- A call that is made before the record of `k` expires, is not a deletion of `k`, and does not
-- bring the token of its owner.
abbrev pub IsForeign : Text → Record → Op → Type 0
IsForeign k r (begins ctx key ttl now token) = now ≤ r.expires_at
IsForeign k r (touches ctx key token ttl now) = (now ≤ r.expires_at) × (owns k r key token ≡ false)
IsForeign k r (completes ctx key token result now) =
    (now ≤ r.expires_at) × (owns k r key token ≡ false)
IsForeign k r (fails ctx key token code msg now) =
    (now ≤ r.expires_at) × (owns k r key token ≡ false)
IsForeign k r (gets ctx key now) = now ≤ r.expires_at
IsForeign k r (deletes ctx key) = text_eq key k ≡ false
IsForeign k r (sweeps ctx now) = now ≤ r.expires_at

pub is_expired_before : (r : Record) (now : ℕ) → now ≤ r.expires_at → is_expired r now ≡ false
unfolding is_expired
is_expired_before r now h = ground arith

module _ (k : Text) (r : Record)
    (known : (r.state ≡ in_progress) ⊎ ((r.state ≡ complete) ⊎ (r.state ≡ failed))) where
  module _ (now : ℕ) (before : now ≤ r.expires_at) where
    lookup-prune_locked :
        (s : MemoryStore)
        → IsUnique s.m
        → lookup k s.m ≡ some r
        → lookup k (prune_locked s now).m ≡ some r
    unfolding prune_locked
    lookup-prune_locked s u h =
        rw (lookup-keep (is_live now) k s.m u, h) (ground (arith, is_expired_before r now before))

    pub lookup-count_op :
        (s : MemoryStore)
        → IsUnique s.m
        → lookup k s.m ≡ some r
        → lookup k (count_op s now).m ≡ some r
    unfolding count_op
    lookup-count_op s u h = elim (Bool-cases ((s.ops + 1) % 2 ^ 64 % s.opts.prune_every == 0)) [
      | inl e ↦ rw e (lookup-prune_locked (record s { ops = (s.ops + 1) % 2 ^ 64 }) u h)
      | inr e ↦ rw e h
    ]

    -- A call about another key.
    lookup-insert_other :
        (s : MemoryStore) (key : Text) (x : Record)
        → text_eq key k ≡ false
        → lookup k s.m ≡ some r
        → lookup k (insert key x s.m) ≡ some r
    lookup-insert_other s key x h e = ground (arith, lookup-insert key k x s.m)

    lookup-begin_other :
        (s : MemoryStore) (key : Text) (ttl : ℕ) (token : Text) (o : Option Record)
        → IsUnique s.m
        → text_eq key k ≡ false
        → lookup k s.m ≡ some r
        → lookup k (begin_found o s key now ttl token).0.m ≡ some r
    unfolding begin_found start
    lookup-begin_other s key ttl token none u h e =
        elim (Bool-cases (leb s.opts.max_entries (length s.m))) [
          | inr a ↦ unfold begin_new in rw a (lookup-insert_other s key _ h e)
          | inl a ↦ elim (Bool-cases (leb s.opts.max_entries (length (prune_locked s now).m))) [
            | inl b ↦ unfold begin_new in rw (a, b) (lookup-prune_locked s u e)
            | inr b ↦
                unfold begin_new in
                rw (a, b)
                  (lookup-insert_other (prune_locked s now) key _ h (lookup-prune_locked s u e))
          ]
        ]
    lookup-begin_other s key ttl token (some x) u h e =
        ground (arith, lookup-insert_other s key (new_in_progress key now ttl token) h e)

    -- A call about `k` finds `r`, which is known and has not expired.
    begin_found_known :
        (s : MemoryStore) (key : Text) (ttl : ℕ) (token : Text)
        → (begin_found (some r) s key now ttl token).0 ≡ s
    unfolding begin_found start
    begin_found_known s key ttl token = ground (arith, is_expired_before r now before)

    lookup-try_begin :
        (s : MemoryStore) (ctx : Option Error) (key : Text) (ttl : ℤ) (token : Text)
        → IsUnique s.m
        → IsUnique (count_op s now).m
        → lookup k s.m ≡ some r
        → lookup k (try_begin s ctx key ttl now token).0.m ≡ some r
    unfolding try_begin
    lookup-try_begin s ctx key ttl token u u' e = elim (Option-cases (refused ctx key)) [
      | inr (x, h) ↦ rw (h, try_begin) e
      | inl h ↦
          rw (h, try_begin)
            (elim (Bool-cases (text_eq key k)) [
              | inl same ↦
                  rw
                    (
                      (text_eq_iff key k).0 same,
                      counted,
                      begin_found_known (count_op s now) k (or_default ttl s.opts.default_ttl)
                          token,
                    )
                    counted
              | inr apart ↦
                  lookup-begin_other (count_op s now) key (or_default ttl s.opts.default_ttl) token
                    (lookup key (count_op s now).m) u' apart counted
            ])
    ]
      where
        counted : lookup k (count_op s now).m ≡ some r
        counted = lookup-count_op s u e

    lookup-update_owned :
        (s : MemoryStore) (key token : Text) (f : Record → Record)
        → (text_eq key k && (is_in_progress r.state && text_eq r.owner_token token)) ≡ false
        → lookup k s.m ≡ some r
        → (o : Option Record) → lookup key s.m ≡ o
        → lookup k (update_owned o s key token now f).0.m ≡ some r
    unfolding update_owned
    lookup-update_owned s key token f foreign e none q = e
    lookup-update_owned s key token f foreign e (some x) q = elim (Bool-cases (text_eq key k)) [
      | inl same ↦
          let p : key ≡ k = (text_eq_iff key k).0 same in
          let rx : x ≡ r = ground arith in ground (arith, is_expired_before r now before)
      | inr apart ↦ ground (arith, lookup-insert key k (f x) s.m, lookup-remove key k s.m)
    ]

    lookup-get :
        (s : MemoryStore) (ctx : Option Error) (key : Text)
        → lookup k s.m ≡ some r
        → lookup k (get s ctx key now).0.m ≡ some r
    unfolding get
    lookup-get s ctx key e = elim (Option-cases (refused ctx key)) [
      | inr (x, h) ↦ rw (h, get) e
      | inl h ↦ rw (h, get) (go (lookup key s.m) refl)
    ]
      where
        go :
            (o : Option Record) → lookup key s.m ≡ o → lookup k (get_found o s key now).0.m ≡ some r
        go none q = e
        go (some x) q = elim (Bool-cases (text_eq key k)) [
          | inl same ↦
              let p : key ≡ k = (text_eq_iff key k).0 same in
              let rx : x ≡ r = ground arith in ground (arith, is_expired_before r now before)
          | inr apart ↦ ground (arith, lookup-remove key k s.m)
        ]

  module _ (sha256 : List ℕ → List ℕ) where
    lookup-perform :
        (s : MemoryStore) (op : Op)
        → Inv sha256 s
        → IsForeign k r op
        → lookup k s.m ≡ some r
        → lookup k (perform sha256 s op).0.m ≡ some r
    unfolding perform
    lookup-perform s (begins ctx key ttl now token) v h e =
        lookup-try_begin now h s ctx key ttl token v.unique (count_op-Inv sha256 s now v).unique e
    lookup-perform s (touches ctx key token ttl now) v h e =
        unfold touch in
        ground (
          arith,
          lookup-update_owned now h.0 s key (trim_space token)
              (touched now (or_default ttl s.opts.default_ttl)) h.1 e (lookup key s.m) refl,
        )
    lookup-perform s (completes ctx key token result now) v h e =
        unfold complete_key in
        ground (
          arith,
          lookup-update_owned now h.0 s key (trim_space token) (completed sha256 now result) h.1 e
              (lookup key s.m) refl,
        )
    lookup-perform s (fails ctx key token code msg now) v h e =
        unfold fail in
        ground (
          arith,
          lookup-update_owned now h.0 s key (trim_space token)
              (failed_with now (take 64 (trim_space code)) (take 512 (trim_space msg))) h.1 e
              (lookup key s.m) refl,
        )
    lookup-perform s (gets ctx key now) v h e = lookup-get now h s ctx key e
    lookup-perform s (deletes ctx key) v h e =
        unfold delete in ground (arith, lookup-remove key k s.m)
    lookup-perform s (sweeps (some x) now) v h e = unfold sweep in e
    lookup-perform s (sweeps none now) v h e =
        unfold sweep in lookup-prune_locked now h s v.unique e

    -- The record of a key survives every call that is foreign to it.
    pub lookup-run :
        (s : MemoryStore) (ops : List Op)
        → Inv sha256 s
        → All (IsForeign k r) ops
        → lookup k s.m ≡ some r
        → lookup k (run sha256 s ops).m ≡ some r
    unfolding run
    lookup-run s [] v h e = e
    lookup-run s (op ∷ ops) v h e =
        lookup-run (perform sha256 s op).0 ops (perform-Inv sha256 s op v) h.1
          (lookup-perform s op v h.0 e)
