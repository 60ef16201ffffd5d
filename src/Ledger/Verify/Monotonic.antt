-- ===== src/Ledger/Verify/Monotonic.antt =====
-- The option RequireMonotonicTS of services/audit/internal/ledger/verification.go.
use chartly.Prelude.{ℕ, ◌≤◌, ◌≡◌, refl, Bool, true, false, none, List, [], ◌∷◌, map, arith}
use chartly.Prelude.Sort.{sort_by, IsAscending, sort_by-IsAscending}
use chartly.Text.{Text}
use chartly.Ledger.{Event, norm_collapse}
use chartly.Ledger.Chain.{External, or_first_tenant}
use chartly.Ledger.Verify.{
  VerifyOptions, normalize_verify_options, Item, item_before, has_descent, item_of, check_monotonic,
  verify_some, verify_events,
}

abbrev time : Item → ℕ
time a = a.0

item_before-up : (a b : Item) → item_before a b ≡ true → time a ≤ time b
unfolding item_before
item_before-up a b h = ground arith

item_before-down : (a b : Item) → item_before a b ≡ false → time b ≤ time a
unfolding item_before
item_before-down a b h = ground arith

has_descent-IsAscending :
    (items : List Item)
    → IsAscending item_before time item_before-up item_before-down items
    → has_descent items ≡ false
unfolding has_descent
has_descent-IsAscending [] h = refl
has_descent-IsAscending (a ∷ []) h = refl
has_descent-IsAscending (a ∷ b ∷ items) h =
    ground (arith, h.0, has_descent-IsAscending (b ∷ items) h.1)

module _ (ext : External) where
  pub check_monotonic-none : (es : List Event) → check_monotonic ext es ≡ none
  unfolding check_monotonic
  check_monotonic-none es = rw (
      has_descent-IsAscending (sort_by item_before (map (item_of ext) es)) (
        sort_by-IsAscending item_before time item_before-up item_before-down
          (map (item_of ext) es)))

  verify_some_monotonic :
      (o : VerifyOptions) (tid : Text) (es : List Event) (b : Bool)
      → verify_some ext (record o { require_monotonic_ts = b }) tid es
        ≡ verify_some ext (record o { require_monotonic_ts = false }) tid es
  unfolding verify_some
  verify_some_monotonic o tid es false = refl
  verify_some_monotonic o tid es true = rw (check_monotonic-none es)

  -- RequireMonotonicTS has no effect: whatever the events, VerifyEvents answers the same with the
  -- option as without it, since it sorts the times before it looks whether they go down.
  pub verify_events_ignores_monotonic :
      (t : Text) (es : List Event) (o : VerifyOptions) (b : Bool)
      → verify_events ext t es (record o { require_monotonic_ts = b })
        ≡ verify_events ext t es (record o { require_monotonic_ts = false })
  unfolding verify_events normalize_verify_options
  verify_events_ignores_monotonic t [] o b = refl
  verify_events_ignores_monotonic t (e ∷ es) o b =
      verify_some_monotonic (normalize_verify_options o)
        (or_first_tenant (norm_collapse t) (e ∷ es)) (e ∷ es) b
