-- ===== src/Scheduler/Limiter/Bounded.antt =====
-- How many triggers the limiter of services/orchestrator/internal/scheduler/policies.go allows.
use chartly.Prelude.{
  ℕ, suc, ◌+◌, ◌/◌, ◌≤◌, ◌<◌, ◌≡◌, ◌⊎◌, refl, ap, ◌∙◌, Bool, true, false, ◌&&◌, List, [], ◌∷◌,
  arith, if◌then◌else◌, leb, ◌==◌, Bool-cases, inl, inr, leb→gt, leb→le,
}
use chartly.Prelude.Int.{ℤ, pos, negsuc}
use chartly.Text.{Text}
use chartly.Dict.{Dict, lookup, insert}
use chartly.Scheduler.{Policy, Reason, allowed, rate_limited_minute, rate_limited_job_hour, or_zero}
use chartly.Scheduler.Limiter.{
  Counts, count_of, bump, keep_recent, Limiter, new_limiter, hour_key, prune_minutes, prune_hours,
  reset_old, reached, count_trigger, allow,
}

pub record Trigger : Type 0 where
  pub now : ℕ
  pub tenant_id : Text
  pub job_name : Text

abbrev pub answer : Trigger → Limiter → Limiter × Bool × Reason
answer t l = allow t.now t.tenant_id t.job_name l

abbrev pub tick : ℕ → Trigger → Bool → ℕ
tick minute t ok = if (t.now / 60 == minute) && ok then 1 else 0

-- How many of the triggers are allowed within a minute.
unfoldable pub allowed_in : ℕ → List Trigger → Limiter → ℕ
unfolding allow
allowed_in minute [] l = 0
allowed_in minute (t ∷ ts) l = tick minute t (answer t l).1 + allowed_in minute ts (answer t l).0

-- The clock does not go back, from `low` on.
abbrev pub InOrder : ℕ → List Trigger → Type 0
InOrder low [] = Unit
InOrder low (t ∷ ts) = (low ≤ t.now) × InOrder t.now ts

abbrev pub limit : ℤ → ℕ
limit (pos n) = n
limit (negsuc n) = 0

count_of-bump :
    (j k : ℕ) (counts : Counts)
    → count_of j (bump k counts) ≡ (if k == j then suc (count_of j counts) else count_of j counts)
unfolding count_of bump
count_of-bump j k [] = ground arith
count_of-bump j k ((i, n) ∷ counts) = ground (arith, count_of-bump j k counts)

count_of-keep_recent :
    (j current : ℕ) (counts : Counts)
    → current ≤ j
    → count_of j (keep_recent current counts) ≡ count_of j counts
unfolding count_of keep_recent
count_of-keep_recent j current [] h = refl
count_of-keep_recent j current ((i, n) ∷ counts) h =
    ground (arith, count_of-keep_recent j current counts h)

count_of-reset_old :
    (j now : ℕ) (l : Limiter)
    → now / 60 ≤ j
    → (count_of j (reset_old now l).minute_counts ≡ count_of j l.minute_counts)
      × ((reset_old now l).p ≡ l.p)
unfolding reset_old prune_minutes prune_hours
count_of-reset_old j now l h = ground (arith, count_of-keep_recent j (now / 60) l.minute_counts h)

-- What one call of Allow leaves of the counter of a minute that is not over.
abbrev Counted : ℕ → ℕ → Limiter → Limiter × Bool × Reason → Type 0
Counted j minute l (l', ok, why) =
    (count_of j l'.minute_counts
      ≡ count_of j l.minute_counts + (if (minute == j) && ok then 1 else 0))
    × ((minute == j) && ok ≡ true → count_of j l.minute_counts < limit l.p.max_triggers_per_minute)
    × (l'.p ≡ l.p)

reached-false : (n : ℕ) (x : ℤ) → reached n x ≡ false → n < limit x
reached-false n (pos m) h = ground arith
reached-false n (negsuc m) h = cc

count_of-same :
    (j k : ℕ) (counts : Counts) → (k == j) ≡ true → count_of k counts ≡ count_of j counts
count_of-same j k counts h = ap (λ i. count_of i counts) (ground arith)

no_trigger : (j minute : ℕ) (l : Limiter) (why : Reason) → Counted j minute l (l, false, why)
no_trigger j minute l why = elim (Bool-cases (minute == j)) [
  | inl h ↦ rw h (ground arith, λ e. cc, refl)
  | inr h ↦ rw h (ground arith, λ e. cc, refl)
]

one_trigger :
    (j minute : ℕ) (l : Limiter) (hours : Dict ℕ)
    → reached (count_of minute l.minute_counts) l.p.max_triggers_per_minute ≡ false
    → Counted j minute l (
      record l { minute_counts = bump minute l.minute_counts; per_job_hour_counts = hours },
      true,
      allowed,
    )
one_trigger j minute l hours free = (
  ground (arith, count_of-bump j minute l.minute_counts),
  λ e. ground (
    arith,
    reached-false (count_of minute l.minute_counts) l.p.max_triggers_per_minute free,
    count_of-same j minute l.minute_counts,
  ),
  refl,
)

count_trigger-Counted :
    (j minute : ℕ) (key : Text) (l : Limiter) → Counted j minute l (count_trigger minute key l)
unfolding count_trigger
count_trigger-Counted j minute key l =
    elim (Bool-cases (reached (count_of minute l.minute_counts) l.p.max_triggers_per_minute)) [
      | inl full ↦ rw full (no_trigger j minute l rate_limited_minute)
      | inr free ↦
          rw free
            (elim (Bool-cases (
              reached (or_zero (lookup key l.per_job_hour_counts))
                l.p.max_triggers_per_job_per_hour)) [
                  | inl busy ↦ rw busy (no_trigger j minute l rate_limited_job_hour)
                  | inr idle ↦ rw idle (
                      one_trigger j minute l
                        (insert key (suc (or_zero (lookup key l.per_job_hour_counts)))
                          l.per_job_hour_counts)
                        free)
                ])
    ]

same_minute :
    (j minute : ℕ) (k l : Limiter) (r : Limiter × Bool × Reason)
    → count_of j k.minute_counts ≡ count_of j l.minute_counts
    → k.p ≡ l.p
    → Counted j minute k r
    → Counted j minute l r
same_minute j minute k l (l', ok, why) counts policy (count, room, same) = (
  ground (arith, counts, count),
  λ e.
      (let room' = room e in
        let same_limit = ap (λ q. limit q.max_triggers_per_minute) policy in omega arith),
  same ∙ policy,
)

allow-enabled :
    (t : Trigger) (l : Limiter)
    → l.p.enabled ≡ true
    → answer t l
      ≡ count_trigger
          (t.now / 60)
          (hour_key t.tenant_id t.job_name (t.now / 3600))
          (reset_old t.now l)
unfolding allow
allow-enabled t l on = rw on refl

allow-Counted :
    (j : ℕ) (t : Trigger) (l : Limiter)
    → l.p.enabled ≡ true
    → t.now / 60 ≤ j
    → Counted j (t.now / 60) l (answer t l)
allow-Counted j t l on h =
    let kept = count_of-reset_old j t.now l h in
    let key = hour_key t.tenant_id t.job_name (t.now / 3600) in
    rw (allow-enabled t l on) (
      same_minute j (t.now / 60) (reset_old t.now l) l
        (count_trigger (t.now / 60) key (reset_old t.now l)) kept.0 kept.1
        (count_trigger-Counted j (t.now / 60) key (reset_old t.now l)))

earlier_or_later : (a b : ℕ) → (a ≤ b) ⊎ (b < a)
earlier_or_later a b = elim (Bool-cases (leb a b)) [
  | inl h ↦ inl (leb→le a b h)
  | inr h ↦ inr (leb→gt a b h)
]

tick_over : (m : ℕ) (t : Trigger) (ok : Bool) → m < t.now / 60 → tick m t ok ≡ 0
tick_over m t ok over = ground arith

tick_fits :
    (m : ℕ) (t : Trigger) (ok : Bool) (n most : ℕ)
    → n ≤ most
    → ((t.now / 60 == m) && ok ≡ true → n < most)
    → n + tick m t ok ≤ most
tick_fits m t ok n most h room = elim (Bool-cases ((t.now / 60 == m) && ok)) [
  | inl e ↦ rw e (let r = room e in omega arith)
  | inr e ↦ rw e (omega arith)
]

allowed_in-over :
    (m : ℕ) (ts : List Trigger) (low : ℕ) (l : Limiter)
    → InOrder low ts
    → m < low / 60
    → allowed_in m ts l ≡ 0
unfolding allowed_in
allowed_in-over m [] low l order over = refl
allowed_in-over m (t ∷ ts) low l (after, order) over =
    let rest = allowed_in-over m ts t.now (answer t l).0 order (omega arith) in ground (arith, rest)

allowed_in-bounded :
    (m : ℕ) (n : ℤ) (ts : List Trigger) (low : ℕ) (l : Limiter)
    → InOrder low ts
    → l.p.enabled ≡ true
    → l.p.max_triggers_per_minute ≡ n
    → count_of m l.minute_counts ≤ limit n
    → allowed_in m ts l + count_of m l.minute_counts ≤ limit n
unfolding allowed_in
allowed_in-bounded m n [] low l order on most h = omega arith
allowed_in-bounded m n (t ∷ ts) low l (after, order) on most h =
    elim (earlier_or_later (t.now / 60) m) [
      | inl early ↦
          let counted = allow-Counted m t l on early in
          let policy = counted.2 in
          let count' = counted.0 in
          let room = counted.1 in
          let most' = ap (λ q. q.max_triggers_per_minute) policy ∙ most in
          let limits = ap limit most in
          let fits =
            tick_fits m t (answer t l).1 (count_of m l.minute_counts) (limit n) h
              (λ e. (let r = room e in omega arith)) in
          let rest =
            allowed_in-bounded m n ts t.now (answer t l).0 order (ap (λ q. q.enabled) policy ∙ on)
              most' (omega arith) in
          omega arith
      | inr over ↦
          let none_now = tick_over m t (answer t l).1 over in
          let none_later = allowed_in-over m ts t.now (answer t l).0 order over in omega arith
    ]

-- With an enabled policy and a clock that does not go back, a new limiter allows at most
-- max_triggers_per_minute of the triggers within any minute, whatever their tenants and jobs.
pub allowed_in-new_limiter :
    (m : ℕ) (p : Policy) (ts : List Trigger)
    → p.enabled ≡ true
    → InOrder 0 ts
    → allowed_in m ts (new_limiter p) ≤ limit p.max_triggers_per_minute
unfolding new_limiter count_of
allowed_in-new_limiter m p ts on order =
    let bounded =
      allowed_in-bounded m p.max_triggers_per_minute ts 0 (new_limiter p) order on refl
        (omega arith) in
    omega arith
