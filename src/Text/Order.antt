-- ===== src/Text/Order.antt =====
-- The order of strings.
use chartly.Prelude.{◌≡◌, refl, true, false, [], ◌∷◌, arith}
use chartly.Text.{Text, text_eq, text_lt}

pub text_lt_asym : (a b : Text) → text_lt a b ≡ true → text_lt b a ≡ false
unfolding text_lt
text_lt_asym [] [] h = refl
text_lt_asym [] (y ∷ ys) h = refl
text_lt_asym (x ∷ xs) [] h = absurd (ground (arith, h))
text_lt_asym (x ∷ xs) (y ∷ ys) h = ground (arith, h, text_lt_asym xs ys)

pub text_lt_antisym : (a b : Text) → text_lt a b ≡ false → text_lt b a ≡ false → text_eq a b ≡ true
unfolding text_lt text_eq
text_lt_antisym [] [] h g = refl
text_lt_antisym [] (y ∷ ys) h g = absurd (ground (arith, h))
text_lt_antisym (x ∷ xs) [] h g = absurd (ground (arith, g))
text_lt_antisym (x ∷ xs) (y ∷ ys) h g = ground (arith, h, g, text_lt_antisym xs ys)

-- If `b` is not before `a`, and `c` not before `b`, then `c` is not before `a`.
pub text_lt_trans : (a b c : Text) → text_lt b a ≡ false → text_lt c b ≡ false → text_lt c a ≡ false
unfolding text_lt
text_lt_trans [] [] c h g = g
text_lt_trans [] (y ∷ ys) [] h g = absurd (ground (arith, g))
text_lt_trans [] (y ∷ ys) (z ∷ zs) h g = refl
text_lt_trans (x ∷ xs) [] c h g = absurd (ground (arith, h))
text_lt_trans (x ∷ xs) (y ∷ ys) [] h g = absurd (ground (arith, g))
text_lt_trans (x ∷ xs) (y ∷ ys) (z ∷ zs) h g = ground (arith, h, g, text_lt_trans xs ys zs)
