-- ===== src/Idempotency/Store/View.antt =====
-- What a caller can see of the store: the entries that have not expired.
use chartly.Prelude.{
  ℕ, ◌+◌, ◌%◌, ◌^◌, ◌≤◌, ◌≡◌, refl, Bool, true, not, Bool-cases, inl, inr, Option, none, some, leb,
  ◌==◌, length, arith,
}
use chartly.Text.{Text, text_eq}
use chartly.Text.Laws.{text_eq_iff}
use chartly.Dict.{lookup, remove, only, IsUnique, lookup-remove, lookup-keep}
use chartly.Idempotency.{Error}
use chartly.Idempotency.Store.{
  Record, MemoryStore, is_expired, prune_locked, start, begin_new, begin_found, count_op,
  update_owned, Op, begins, touches, completes, fails, gets, deletes, sweeps,
}

abbrev pub is_live : ℕ → Record → Bool
is_live now r = not (is_expired r now)

-- The entry of a key at a time.
abbrev pub live : MemoryStore → ℕ → Text → Option Record
live s now k = only (is_live now) (lookup k s.m)

-- Every time at which the call reads the clock is at most `now`.
abbrev pub IsBy : ℕ → Op → Type 0
IsBy now (begins ctx key ttl t token) = t ≤ now
IsBy now (touches ctx key token ttl t) = t ≤ now
IsBy now (completes ctx key token result t) = t ≤ now
IsBy now (fails ctx key token code msg t) = t ≤ now
IsBy now (gets ctx key t) = t ≤ now
IsBy now (deletes ctx key) = Unit {0}
IsBy now (sweeps ctx t) = t ≤ now

-- What has expired stays expired.
pub is_expired_mono :
    (r : Record) (t now : ℕ) → t ≤ now → is_expired r t ≡ true → is_expired r now ≡ true
unfolding is_expired
is_expired_mono r t now h e = ground arith

only-only :
    (t now : ℕ) (o : Option Record)
    → t ≤ now
    → only (is_live now) (only (is_live t) o) ≡ only (is_live now) o
only-only t now none h = refl
only-only t now (some r) h = ground (arith, is_expired_mono r t now)

module _ (t now : ℕ) (h : t ≤ now) (k : Text) where
  -- Pruning is not seen afterwards.
  pub live-prune_locked :
      (s : MemoryStore) → IsUnique s.m → live (prune_locked s t) now k ≡ live s now k
  unfolding prune_locked
  live-prune_locked s u = rw (lookup-keep (is_live t) k s.m u) (only-only t now (lookup k s.m) h)

  pub live-count_op : (s : MemoryStore) → IsUnique s.m → live (count_op s t) now k ≡ live s now k
  unfolding count_op
  live-count_op s u = elim (Bool-cases ((s.ops + 1) % 2 ^ 64 % s.opts.prune_every == 0)) [
    | inl e ↦ rw e (live-prune_locked (record s { ops = (s.ops + 1) % 2 ^ 64 }) u)
    | inr e ↦ rw e
  ]

  -- Nor is the removal of an expired entry.
  pub live-remove_expired :
      (s : MemoryStore) (key : Text) (r : Record)
      → lookup key s.m ≡ some r
      → is_expired r t ≡ true
      → live (record s { m = remove key s.m }) now k ≡ live s now k
  live-remove_expired s key r e x =
      rw (lookup-remove key k s.m) (elim (Bool-cases (text_eq key k)) [
        | inl same ↦
            let p = (text_eq_iff key k).0 same in
            rw same (rw (← p) (rw e (ground (arith, is_expired_mono r t now))))
        | inr apart ↦ rw apart
      ])

  begin_new_error :
      (s : MemoryStore) (key : Text) (ttl : ℕ) (token : Text) {e : Error}
      → IsUnique s.m
      → (begin_new s key t ttl token).2 ≡ some e
      → live (begin_new s key t ttl token).0 now k ≡ live s now k
  unfolding begin_new start
  begin_new_error s key ttl token u h = elim (Bool-cases (leb s.opts.max_entries (length s.m))) [
    | inr e ↦ absurd (ground arith)
    | inl e ↦ elim (Bool-cases (leb s.opts.max_entries (length (prune_locked s t).m))) [
      | inl f ↦ rw (e, f) (live-prune_locked s u)
      | inr f ↦ absurd (ground arith)
    ]
  ]

  pub begin_found_error :
      (s : MemoryStore) (key : Text) (ttl : ℕ) (token : Text) {e : Error} (o : Option Record)
      → IsUnique s.m
      → (begin_found o s key t ttl token).2 ≡ some e
      → live (begin_found o s key t ttl token).0 now k ≡ live s now k
  unfolding begin_found start
  begin_found_error s key ttl token none u h = begin_new_error s key ttl token u h
  begin_found_error s key ttl token (some r) u h = ground arith

  pub update_owned_error :
      (s : MemoryStore) (key token : Text) (f : Record → Record) {e : Error} (o : Option Record)
      → lookup key s.m ≡ o
      → (update_owned o s key token t f).2 ≡ some e
      → live (update_owned o s key token t f).0 now k ≡ live s now k
  unfolding update_owned
  update_owned_error s key token f none q h = refl
  update_owned_error s key token f (some r) q h = ground (arith, live-remove_expired s key r q)
