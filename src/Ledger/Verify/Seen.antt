-- ===== src/Ledger/Verify/Seen.antt =====
-- The keys seen, in VerifyEvents of services/audit/internal/ledger/verification.go.
use chartly.Prelude.{
  ◌+◌, ◌≤◌, ◌<◌, ◌≡◌, refl, sym, ap, ◌∙◌, true, false, List, [], ◌∷◌, arith, inl, inr, Bool-cases,
}
use chartly.Text.{Text, text_eq}
use chartly.Text.Laws.{text_eq_refl, text_eq_iff}
use chartly.Text.Sort.{count}
use chartly.Ledger.Verify.{contains}

contains-count : (k : Text) (xs : List Text) → contains k xs ≡ false → count k xs ≡ 0
unfolding contains count
contains-count k [] h = refl
contains-count k (x ∷ xs) h = ground (arith, contains-count k xs)

contains-lt-count : (k : Text) (xs : List Text) → contains k xs ≡ true → 0 < count k xs
unfolding contains count
contains-lt-count k [] h = cc
contains-lt-count k (x ∷ xs) h = ground (arith, contains-lt-count k xs)

pub count-nil : (k : Text) → count k [] ≡ 0
unfolding count
count-nil k = refl

pub count_shift :
    (k x : Text) (xs seen : List Text)
    → count k xs + count k (x ∷ seen) ≡ count k (x ∷ xs) + count k seen
unfolding count
count_shift k x xs seen = ground arith

pub count_fresh :
    (x : Text) (seen : List Text)
    → contains x seen ≡ false
    → ((k : Text) → count k seen ≤ 1)
    → (k : Text) → count k (x ∷ seen) ≤ 1
unfolding count
count_fresh x seen fresh once k = elim (Bool-cases (text_eq x k)) [
  | inr other ↦ rw other (once k)
  | inl same ↦
      let none_seen =
        ap (λ t. count t seen) (sym ((text_eq_iff x k).0 same)) ∙ contains-count x seen fresh in
      rw same (omega (arith, none_seen))
]

pub fresh_of_count :
    (x : Text) (xs seen : List Text) → count x (x ∷ xs) + count x seen ≤ 1 → contains x seen ≡ false
unfolding count
fresh_of_count x xs seen h = ground (arith, text_eq_refl x, contains-lt-count x seen, h)
