-- ===== src/Prelude/Word.antt =====
-- Go's int64 in two's complement: a word below 2 ^ 64.
use chartly.Prelude.Tests.{ltb, if◌then◌else◌}
use chartly.Prelude.Int.{ℤ, pos, negsuc}
use Prim.Native.Nat.{ℕ, suc, ◌+◌, ◌-◌, ◌*◌, ◌/◌, ◌%◌, ◌^◌, ◌≤◌, ◌<◌}
use mathlib.Core.Path.{◌≡◌, ap}
use mathlib.Core.Bool.{Bool}
use native.Mathlib.Omega.{arith}

abbrev pub word : ℤ → ℕ
word (pos n) = n % 2 ^ 64
word (negsuc n) = (2 ^ 64 - suc n) % 2 ^ 64

unfoldable pub is_minus : ℕ → Bool
is_minus x = ltb (2 ^ 63 - 1) x

-- `x < y` on signed words.
unfoldable pub signed_lt : ℕ → ℕ → Bool
signed_lt x y = ltb ((x + 2 ^ 63) % 2 ^ 64) ((y + 2 ^ 63) % 2 ^ 64)

unfoldable pub add64 : ℕ → ℕ → ℕ
add64 x y = (x + y) % 2 ^ 64

unfoldable pub mul64 : ℕ → ℕ → ℕ
mul64 x y = (x * y) % 2 ^ 64

-- `x / d` for a positive constant, towards zero.
unfoldable pub quot64 : ℕ → ℕ → ℕ
unfolding is_minus
quot64 x d = if is_minus x then (2 ^ 64 - (2 ^ 64 - x) / d) % 2 ^ 64 else x / d

pub mul_le : (a b c : ℕ) → a ≤ b → c * a ≤ c * b
mul_le a b c h = grind arith

-- A product with a negative factor.
pub mul64_minus :
    (c d : ℕ) → 0 < c * d → c * d ≤ 2 ^ 64 → d ≤ 2 ^ 64 → mul64 c (2 ^ 64 - d) ≡ 2 ^ 64 - c * d
unfolding mul64
mul64_minus c d low high small =
    let e = 2 ^ 64 - d in
    let whole : e + d ≡ 2 ^ 64 = omega arith in
    let split : c * (e + d) ≡ c * e + c * d = grind arith in
    let all_of : c * (e + d) ≡ c * 2 ^ 64 = ap (λ x. c * x) whole in omega (arith, split, all_of)

pub mul64_plus : (c d : ℕ) → c * d < 2 ^ 64 → mul64 c d ≡ c * d
unfolding mul64
mul64_plus c d h = omega arith
