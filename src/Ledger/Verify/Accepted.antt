-- ===== src/Ledger/Verify/Accepted.antt =====
-- Which events VerifyEvents of services/audit/internal/ledger/verification.go accepts.
use chartly.Prelude.{
  ℕ, suc, ◌+◌, ◌≤◌, ◌<◌, ◌≡◌, ◌↔◌, refl, sym, Bool, true, false, ◌&&◌, Option, none, some, List, [],
  ◌∷◌, ◌++◌, map, arith, inl, inr, if◌then◌else◌, length, All, Bool-cases, Option-cases,
}
use mathlib.Core.Path.{subst}
use chartly.Prelude.Int.{pos, or_default, or_default-pos}
use chartly.Text.{Text, is_empty}
use chartly.Text.Laws.{text_eq_refl, text_eq_iff}
use chartly.Text.Sort.{count}
use chartly.Ledger.{Event, norm_collapse}
use chartly.Ledger.Collapse.{norm_collapse_idem}
use chartly.Ledger.Chain.{External, or_first_tenant, parse_rfc3339_strict}
use chartly.Ledger.Verify.Seen.{count-nil, count_shift, count_fresh, fresh_of_count}
use chartly.Ledger.Verify.{
  Error, too_many, tenant_required, VerifyOptions, normalize_verify_options, exceeds, first_error,
  contains, duplicate_key, check_tenant, lacks_required, check_fields, check_all, verify_some,
  verify_events,
}
use chartly.Ledger.Verify.Monotonic.{check_monotonic-none}

-- An event that the loop lets pass, whatever the other events are: its fields are not empty, once
-- their white space is collapsed, and its time parses.
pub record IsFit (ext : External) (o : VerifyOptions) (tid : Text) (e : Event) : Type 0 where
  pub same_tenant : o.enforce_tenant_id ≡ true → norm_collapse e.tenant_id ≡ tid
  pub some_id : is_empty (norm_collapse e.event_id) ≡ false
  pub some_ts : is_empty (norm_collapse e.ts) ≡ false
  pub some_action : is_empty (norm_collapse e.action) ≡ false
  pub some_outcome : is_empty (norm_collapse e.outcome) ≡ false
  pub timed : (t : ℕ) × (ext.parse_time (norm_collapse e.ts) ≡ some t)

-- The tenant and the identifier of an event with a bar between them.
abbrev pub barred : Event → Text
barred e = norm_collapse e.tenant_id ++ b'|' ∷ norm_collapse e.event_id

-- What VerifyEvents asks of all the events.
pub record IsAccepted (ext : External) (o : VerifyOptions) (tid : Text) (es : List Event)
    : Type 0 where
  pub some_event : 0 < length es
  pub few : length es ≤ or_default o.max_events 200000
  pub named : o.enforce_tenant_id ≡ true → is_empty tid ≡ false
  pub fit : All (IsFit ext o tid) es
  pub distinct : (k : Text) → count k (map barred es) ≤ 1

first_error-none : (a b : Option Error) → first_error a b ≡ none → (a ≡ none) × (b ≡ none)
first_error-none none b h = (refl, h)
first_error-none (some e) b h = cc

module _ (ext : External) (o : VerifyOptions) (tid : Text) where
  -- The checks of one event, apart from the keys seen.
  check_fields-IsFit :
      (i : ℕ) (e : Event)
      → (o.enforce_tenant_id ≡ true → is_empty tid ≡ false)
      → check_tenant o.enforce_tenant_id tid i e ≡ none
      → check_fields ext i e ≡ none
      → IsFit ext o tid e
  unfolding check_tenant check_fields lacks_required parse_rfc3339_strict
  check_fields-IsFit i e named t f = record {
    same_tenant =
        λ on. (text_eq_iff (norm_collapse e.tenant_id) tid).0 (ground (arith, t, on, named on));
    some_id = ground (arith, f);
    some_ts = ground (arith, f);
    some_action = ground (arith, f);
    some_outcome = ground (arith, f);
    timed = elim (Option-cases (ext.parse_time (norm_collapse e.ts))) [
      | inl never ↦ absurd (ground (arith, f, never, norm_collapse_idem e.ts))
      | inr at ↦ at
    ];
  }

  IsFit-check_fields :
      (i : ℕ) (e : Event)
      → (o.enforce_tenant_id ≡ true → is_empty tid ≡ false)
      → IsFit ext o tid e
      → (check_tenant o.enforce_tenant_id tid i e ≡ none) × (check_fields ext i e ≡ none)
  unfolding check_tenant check_fields
  IsFit-check_fields i e named fit = (
    elim (Bool-cases o.enforce_tenant_id) [
      | inr off ↦ rw off
      | inl on ↦ rw on (rw (fit.same_tenant on) (rw (named on) (rw (text_eq_refl tid) refl)))
    ],
    unfold lacks_required parse_rfc3339_strict in
        rw (fit.some_id, fit.some_ts, fit.some_action, fit.some_outcome, norm_collapse_idem e.ts)
          (rw (fit.some_ts, fit.timed.1) refl),
  )

  check_all-accepts :
      (i : ℕ) (seen : List Text) (es : List Event)
      → (o.enforce_tenant_id ≡ true → is_empty tid ≡ false)
      → ((k : Text) → count k seen ≤ 1)
      → check_all ext o.enforce_tenant_id tid i seen es ≡ none
      → All (IsFit ext o tid) es × ((k : Text) → count k (map barred es) + count k seen ≤ 1)
  unfolding check_all duplicate_key
  check_all-accepts i seen [] named once h = (tt, λ k. omega (arith, once k, count-nil k))
  check_all-accepts i seen (e ∷ es) named once h =
      let (t, h1) = first_error-none _ _ h in
      let (f, h2) = first_error-none _ _ h1 in
      let (d, rest) = first_error-none _ _ h2 in
      let fresh : contains (barred e) seen ≡ false = ground (arith, d) in
      let (fits, distinct) =
        check_all-accepts (suc i) (barred e ∷ seen) es named
          (count_fresh (barred e) seen fresh once) rest in
      (
        (check_fields-IsFit i e named t f, fits),
        λ k. omega (arith, distinct k, count_shift k (barred e) (map barred es) seen),
      )

  check_all-none :
      (i : ℕ) (seen : List Text) (es : List Event)
      → (o.enforce_tenant_id ≡ true → is_empty tid ≡ false)
      → All (IsFit ext o tid) es
      → ((k : Text) → count k (map barred es) + count k seen ≤ 1)
      → check_all ext o.enforce_tenant_id tid i seen es ≡ none
  unfolding check_all duplicate_key
  check_all-none i seen [] named fits distinct = refl
  check_all-none i seen (e ∷ es) named fits distinct =
      let (t, f) = IsFit-check_fields i e named fits.0 in
      let x = barred e in
      let fresh = fresh_of_count x (map barred es) seen (distinct x) in
      rw t (
        rw f (
          rw fresh (
            check_all-none (suc i) (x ∷ seen) es named fits.1
              (λ k. omega (arith, distinct k, count_shift k x (map barred es) seen)))))

exceeds-few : (n m : ℕ) → 0 < m → (exceeds n (pos m) ≡ false) ↔ (n ≤ m)
exceeds-few n m h = (λ e. ground arith, λ e. ground arith)

guarded :
    (b c : Bool) (x y : Option Error)
    → (if b then some too_many else if c then some tenant_required else first_error x y) ≡ none
    → (b ≡ false) × (c ≡ false) × (x ≡ none)
guarded true c x y h = cc
guarded false true x y h = cc
guarded false false x y h = (refl, refl, (first_error-none x y h).0)

if_none_twice : (b : Bool) → if◌then◌else◌ {A = Option Error} b none none ≡ none
if_none_twice true = refl
if_none_twice false = refl

module _ (ext : External) (o : VerifyOptions) (tid : Text) (e : Event) (es : List Event) where
  some_accepts :
      verify_some ext (normalize_verify_options o) tid (e ∷ es) ≡ none
      → IsAccepted ext o tid (e ∷ es)
  unfolding verify_some normalize_verify_options
  some_accepts h =
      let (few, there, checked) = guarded _ _ _ _ h in
      let named : o.enforce_tenant_id ≡ true → is_empty tid ≡ false =
        λ on. ground (arith, there, on) in
      let (fits, distinct) =
        check_all-accepts ext o tid 0 [] (e ∷ es) named (λ k. omega (arith, count-nil k)) checked in
      record {
        some_event = omega arith;
        few = (exceeds-few _ _ (or_default-pos o.max_events 200000 (omega arith))).0 few;
        named = named;
        fit = fits;
        distinct = λ k. omega (arith, distinct k, count-nil k);
      }

  some_accepted :
      IsAccepted ext o tid (e ∷ es)
      → verify_some ext (normalize_verify_options o) tid (e ∷ es) ≡ none
  unfolding verify_some normalize_verify_options
  some_accepted a =
      let few =
        (exceeds-few (length (e ∷ es)) _ (or_default-pos o.max_events 200000 (omega arith))).1
          a.few in
      let there : (o.enforce_tenant_id && is_empty tid) ≡ false = ground (arith, a.named) in
      let checked =
        check_all-none ext o tid 0 [] (e ∷ es) a.named a.fit
          (λ k. omega (arith, a.distinct k, count-nil k)) in
      rw few (
        rw there (
          rw checked
            (rw (check_monotonic-none ext (e ∷ es)) (if_none_twice o.require_monotonic_ts))))

-- The collapsed tenant that is asked for, or else that of the first event.
abbrev pub tenant_of : Text → List Event → Text
tenant_of t [] = norm_collapse t
tenant_of t (e ∷ es) =
    if is_empty (norm_collapse t) then norm_collapse e.tenant_id else norm_collapse t

given_or_first :
    (t : Text) (e : Event) (es : List Event)
    → or_first_tenant t (e ∷ es) ≡ (if is_empty t then norm_collapse e.tenant_id else t)
given_or_first [] e es = refl
given_or_first (c ∷ t) e es = refl

-- VerifyEvents accepts exactly these events: at least one and at most MaxEvents (200000 where it is
-- not positive), each with its identifier, time, action and outcome, the time one that parses, no key
-- of tenant and identifier twice, and, where EnforceTenantID is set, all of the one tenant, which is
-- named: the given one, or that of the first event where none is given.
pub verify_events_accepts :
    (ext : External) (t : Text) (es : List Event) (o : VerifyOptions)
    → (verify_events ext t es o ≡ none) ↔ IsAccepted ext o (tenant_of t es) es
unfolding verify_events
verify_events_accepts ext t [] o =
    (λ h. absurd (ground (arith, h)), λ a. absurd (omega (arith, a.some_event)))
verify_events_accepts ext t (e ∷ es) o =
    let tid = or_first_tenant (norm_collapse t) (e ∷ es) in
    let same = given_or_first (norm_collapse t) e es in
    (
      λ h. subst (λ x. IsAccepted ext o x (e ∷ es)) same (some_accepts ext o tid e es h),
      λ a. some_accepted ext o tid e es (subst (λ x. IsAccepted ext o x (e ∷ es)) (sym same) a),
    )
