-- ===== src/Text/Laws.antt =====
-- Laws of the text operations.
use chartly.Prelude.{
  ℕ, ◌≡◌, refl, ◌↔◌, Bool, true, false, [], ◌∷◌, ◌++◌, arith, if◌then◌else◌, all, Bool-cases, inl,
  inr, ◌⊎◌,
}
use chartly.Text.{
  Text, text_eq, is_space, trim_left, trim_right, trim_space, lower_byte, to_lower, split,
  contains_byte,
}

pub text_eq_refl : (s : Text) → text_eq s s ≡ true
unfolding text_eq
text_eq_refl [] = refl
text_eq_refl (x ∷ xs) = ground (arith, text_eq_refl xs)

pub text_eq-eq : (s t : Text) → text_eq s t ≡ true → s ≡ t
unfolding text_eq
text_eq-eq [] [] h = refl
text_eq-eq [] (y ∷ ys) h = cc
text_eq-eq (x ∷ xs) [] h = cc
text_eq-eq (x ∷ xs) (y ∷ ys) h = ground (arith, text_eq-eq xs ys)

-- The test on texts decides equality.
pub text_eq_iff : (s t : Text) → (text_eq s t ≡ true) ↔ (s ≡ t)
text_eq_iff s t = (text_eq-eq s t, λ e. rw (← e) (text_eq_refl s))

trim_left-cases :
    (s : Text)
    → (trim_left s ≡ []) ⊎ ((c : ℕ) × (t : Text) × (trim_left s ≡ c ∷ t) × (is_space c ≡ false))
unfolding trim_left
trim_left-cases [] = inl refl
trim_left-cases (c ∷ s) = elim (Bool-cases (is_space c)) [
  | inl e ↦ rw e (trim_left-cases s)
  | inr e ↦ rw e (inr (c, s, refl, e))
]

trim_right_idem : (s : Text) → trim_right (trim_right s) ≡ trim_right s
unfolding trim_right
trim_right_idem [] = refl
trim_right_idem (c ∷ s) = ground (arith, trim_right_idem s)

trim_left-trim_right :
    (c : ℕ) (s : Text) → is_space c ≡ false → trim_left (trim_right (c ∷ s)) ≡ trim_right (c ∷ s)
unfolding trim_left trim_right
trim_left-trim_right c s h = ground arith

-- strings.TrimSpace leaves nothing to trim.
pub trim_space_idem : (s : Text) → trim_space (trim_space s) ≡ trim_space s
unfolding trim_space
trim_space_idem s = elim (trim_left-cases s) [
  | inl e ↦ rw e (unfold trim_left trim_right in refl)
  | inr (c, t, e, h) ↦ rw e (rw (trim_left-trim_right c t h) (trim_right_idem (c ∷ t)))
]

is_space-lower_byte : (c : ℕ) → is_space (lower_byte c) ≡ is_space c
unfolding is_space lower_byte
is_space-lower_byte c = ground arith

lower_byte_idem : (c : ℕ) → lower_byte (lower_byte c) ≡ lower_byte c
unfolding lower_byte
lower_byte_idem c = ground arith

pub to_lower_idem : (s : Text) → to_lower (to_lower s) ≡ to_lower s
unfolding to_lower
to_lower_idem [] = refl
to_lower_idem (c ∷ s) = cc (lower_byte_idem c, to_lower_idem s)

trim_left-to_lower : (s : Text) → trim_left (to_lower s) ≡ to_lower (trim_left s)
unfolding trim_left to_lower
trim_left-to_lower [] = refl
trim_left-to_lower (c ∷ s) = ground (arith, is_space-lower_byte c, trim_left-to_lower s)

trim_right-to_lower : (s : Text) → trim_right (to_lower s) ≡ to_lower (trim_right s)
unfolding trim_right to_lower
trim_right-to_lower [] = refl
trim_right-to_lower (c ∷ s) = ground (arith, is_space-lower_byte c, trim_right-to_lower s)

-- Trimming and lowering commute.
pub trim_space-to_lower : (s : Text) → trim_space (to_lower s) ≡ to_lower (trim_space s)
unfolding trim_space
trim_space-to_lower s = rw trim_left-to_lower (trim_right-to_lower (trim_left s))

-- A field without the separator is split off whole.
pub split-append :
    (sep : ℕ) (w s : Text)
    → contains_byte sep w ≡ false
    → split sep (w ++ sep ∷ s) ≡ w ∷ split sep s
unfolding split contains_byte
split-append sep [] s h = ground arith
split-append sep (c ∷ w) s h = ground (arith, split-append sep w s)

pub split_single : (sep : ℕ) (w : Text) → contains_byte sep w ≡ false → split sep w ≡ w ∷ []
unfolding split contains_byte
split_single sep [] h = refl
split_single sep (c ∷ w) h = ground (arith, split_single sep w)

abbrev pub not_space : ℕ → Bool
not_space c = if is_space c then false else true

trim_left_id : (s : Text) → all not_space s ≡ true → trim_left s ≡ s
unfolding trim_left
trim_left_id [] h = refl
trim_left_id (c ∷ s) h = ground arith

trim_right_id : (s : Text) → all not_space s ≡ true → trim_right s ≡ s
unfolding trim_right
trim_right_id [] h = refl
trim_right_id (c ∷ []) h = ground arith
trim_right_id (c ∷ d ∷ s) h = ground (arith, trim_right_id (d ∷ s))

-- A text with no white space has nothing to trim.
pub trim_space_id : (s : Text) → all not_space s ≡ true → trim_space s ≡ s
unfolding trim_space
trim_space_id s h = rw (trim_left_id s h) (trim_right_id s h)
