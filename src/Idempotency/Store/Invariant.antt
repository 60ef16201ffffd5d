-- ===== src/Idempotency/Store/Invariant.antt =====
-- What holds of the store between two calls.
use chartly.Prelude.{
  ℕ, ◌*◌, ◌≤◌, ◌<◌, ◌≡◌, ◌≢◌, refl, ◌⊎◌, inl, inr, Bool, true, false, not, Bool-cases, Option, none,
  some, List, [], leb, length, arith,
}
use chartly.Prelude.Int.{or_default-pos}
use chartly.Text.{Text, text_eq}
use chartly.Text.Laws.{text_eq_iff}
use chartly.Dict.{
  lookup, insert, remove, IsUnique, lookup-insert, lookup-remove, lookup-keep, insert-IsUnique,
  remove-IsUnique, keep-IsUnique, length-insert, length-remove, length-keep,
}
use chartly.Idempotency.{Error}
use chartly.Idempotency.Encode.{hex_encode}
use chartly.Idempotency.Keys.{validate_key}
use chartly.Idempotency.Store.{
  in_progress, complete, failed, Options, Limits, Record, MemoryStore, minute, is_expired,
  new_memory_store, new_in_progress, prune_locked, refused, start, begin_new,
}

pub record IsPositive (o : Limits) : Type 0 where
  pub entries : 0 < o.max_entries
  pub result : 0 < o.max_result_bytes
  pub ttl : 0 < o.default_ttl
  pub every : 0 < o.prune_every

-- A key that passes is one that `ValidateKey` accepts.
pub refused-valid :
    (ctx : Option Error) (key : Text) → refused ctx key ≡ none → validate_key key ≡ none
unfolding refused
refused-valid ctx key h = ground arith

module _ (sha256 : List ℕ → List ℕ) where
  -- A record under its key.
  pub record Fits (o : Limits) (k : Text) (r : Record) : Type 0 where
    pub keyed : r.key ≡ k
    pub valid : validate_key k ≡ none
    pub known : (r.state ≡ in_progress) ⊎ ((r.state ≡ complete) ⊎ (r.state ≡ failed))
    pub leased : 0 < r.expires_at
    pub released : r.state ≢ in_progress → r.owner_token ≡ []
    pub hashed : r.state ≡ complete → r.result_hash ≡ hex_encode (sha256 r.result_bytes)
    pub small : length r.result_bytes ≤ o.max_result_bytes
    pub cleared : r.state ≡ failed → r.result_bytes ≡ []
    pub short_code : length r.error_code ≤ 64
    pub short_msg : length r.error_msg ≤ 512

  pub record Inv (s : MemoryStore) : Type 0 where
    pub positive : IsPositive s.opts
    pub unique : IsUnique s.m
    pub bounded : length s.m ≤ s.opts.max_entries
    pub each : (k : Text) (r : Record) → lookup k s.m ≡ some r → Fits s.opts k r

  pub new_memory_store-Inv : (o : Options) → Inv (new_memory_store o)
  unfolding new_memory_store lookup
  new_memory_store-Inv o = record {
    positive = record {
      entries = or_default-pos o.max_entries 200000 (omega arith);
      result = or_default-pos o.max_result_bytes (1024 * 1024) (omega arith);
      ttl = or_default-pos o.default_ttl (5 * minute) (omega arith);
      every = or_default-pos o.prune_every 1024 (omega arith);
    };
    unique = tt;
    bounded = omega arith;
    each = λ k r e. cc;
  }

  pub prune_locked-Inv : (s : MemoryStore) (now : ℕ) → Inv s → Inv (prune_locked s now)
  unfolding prune_locked
  prune_locked-Inv s now v = record {
    positive = v.positive;
    unique = keep-IsUnique _ s.m v.unique;
    bounded = omega (arith, length-keep (λ (r : Record). not (is_expired r now)) s.m, v.bounded);
    each = λ k r e.
        v.each k r
          (ground (arith, lookup-keep (λ (x : Record). not (is_expired x now)) k s.m v.unique));
  }

  pub remove-Inv : (s : MemoryStore) (key : Text) → Inv s → Inv (record s { m = remove key s.m })
  remove-Inv s key v = record {
    positive = v.positive;
    unique = remove-IsUnique key s.m v.unique;
    bounded = omega (arith, length-remove key s.m, v.bounded);
    each = λ k r e. v.each k r (ground (arith, lookup-remove key k s.m));
  }

  -- There is room for the key: it is there already, or the store is not full.
  abbrev pub HasRoom : MemoryStore → Text → Type 0
  HasRoom s key = ((r : Record) × (lookup key s.m ≡ some r)) ⊎ (length s.m < s.opts.max_entries)

  length-insert-le :
      (s : MemoryStore) (key : Text) (r : Record)
      → Inv s
      → HasRoom s key
      → length (insert key r s.m) ≤ s.opts.max_entries
  length-insert-le s key r v room = ground (arith, length-insert key r s.m, v.bounded)

  pub insert-Inv :
      (s : MemoryStore) (key : Text) (r : Record)
      → Inv s
      → HasRoom s key
      → Fits s.opts key r
      → Inv (record s { m = insert key r s.m })
  insert-Inv s key r v room f = record {
    positive = v.positive;
    unique = insert-IsUnique key r s.m v.unique;
    bounded = length-insert-le s key r v room;
    each = λ k x e. go k x e (text_eq key k) refl;
  }
    where
      go :
          (k : Text) (x : Record)
          → lookup k (insert key r s.m) ≡ some x
          → (b : Bool) → text_eq key k ≡ b
          → Fits s.opts k x
      go k x e true h =
          let same : key ≡ k = (text_eq_iff key k).0 h in
          let rx : r ≡ x = ground (arith, lookup-insert key k r s.m) in rw (← same, ← rx) f
      go k x e false h = v.each k x (ground (arith, lookup-insert key k r s.m))

  new_in_progress-Fits :
      (o : Limits) (key : Text) (now ttl : ℕ) (token : Text)
      → validate_key key ≡ none
      → 0 < ttl
      → Fits o key (new_in_progress key now ttl token)
  unfolding new_in_progress
  new_in_progress-Fits o key now ttl token h t = ground arith

  module _ (key : Text) (valid : validate_key key ≡ none) (now ttl : ℕ) (token : Text)
      (pos : 0 < ttl) where
    pub start-Inv : (s : MemoryStore) → Inv s → HasRoom s key → Inv (start s key now ttl token).0
    unfolding start
    start-Inv s v room =
        insert-Inv s key _ v room (new_in_progress-Fits s.opts key now ttl token valid pos)

    pub begin_new-Inv : (s : MemoryStore) → Inv s → Inv (begin_new s key now ttl token).0
    unfolding begin_new
    begin_new-Inv s v = elim (Bool-cases (leb s.opts.max_entries (length s.m))) [
      | inr e ↦ rw e (start-Inv s v (inr (ground arith)))
      | inl e ↦ elim (Bool-cases (leb s.opts.max_entries (length (prune_locked s now).m))) [
        | inl f ↦ rw (e, f) (prune_locked-Inv s now v)
        | inr f ↦
            rw (e, f)
              (start-Inv (prune_locked s now) (prune_locked-Inv s now v)
                (inr (unfold prune_locked in ground arith)))
      ]
    ]
