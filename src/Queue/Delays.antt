-- ===== src/Queue/Delays.antt =====
-- The delays that the retry policy of pkg/queue/consumer.go decides on.
use chartly.Prelude.{
  ℕ, zero, suc, ◌+◌, ◌-◌, ◌*◌, ◌/◌, ◌%◌, ◌^◌, ◌≤◌, ◌<◌, ◌≡◌, refl, ap, true, false, List, ◌⊎◌, inl,
  inr, arith, if◌then◌else◌, ltb, leb, leb→le, leb→gt, lt→ltb, Bool-cases,
}
use Prim.Native.Nat.{min}
use native.Mathlib.Nat.{pow-le-pow_right, mod-lt, mul-pos}
use chartly.Prelude.Int.{ℤ, pos, negsuc, or_default}
use chartly.Prelude.Word.{
  is_minus, signed_lt, add64, mul64, quot64, mul_le, mul64_minus, mul64_plus,
}
use chartly.Text.{Text}
use chartly.Queue.{Envelope, max_recommended_attempts}
use chartly.Queue.Retry.{
  DefaultRetryPolicy, delta_pct, jitter, jitter_or_default, attempts, capped_delay, at_least_zero,
  digest_number, deterministic_jitter, decide, retry_parts,
}

two_pow_20 : (s : ℕ) → s ≤ 20 → 2 ^ s ≤ 2 ^ 20
two_pow_20 s h = pow-le-pow_right {n = 2} (omega arith) h

-- The delay before the jitter, in numbers without a bound.
abbrev pub plain_delay : ℕ → ℕ → ℕ → ℕ
plain_delay base most att = min (base * 2 ^ min att 20) most

ltb-shift : (x y k : ℕ) → ltb (x + k) (y + k) ≡ ltb x y
ltb-shift x y k = ground arith

if_smaller : (a b : ℕ) → (if ltb a b then a else b) ≡ min b a
if_smaller a b = ground arith

signed_lt-small : (x y : ℕ) → x < 2 ^ 63 → y < 2 ^ 63 → signed_lt x y ≡ ltb x y
unfolding signed_lt
signed_lt-small x y hx hy =
    let left : (x + 2 ^ 63) % 2 ^ 64 ≡ x + 2 ^ 63 = omega arith in
    let right : (y + 2 ^ 63) % 2 ^ 64 ≡ y + 2 ^ 63 = omega arith in
    rw (left, right) (ltb-shift x y (2 ^ 63))

capped_delay-plain_delay :
    (base most att : ℕ)
    → base < 2 ^ 43
    → most ≤ 10 ^ 17
    → capped_delay base most att ≡ plain_delay base most att
unfolding capped_delay
capped_delay-plain_delay base most att hb hm =
    let factor = 2 ^ min att 20 in
    let power : factor ≤ 2 ^ 20 = two_pow_20 (min att 20) (omega arith) in
    let high : base * factor ≤ base * 2 ^ 20 = mul_le factor (2 ^ 20) base power in
    let exact : mul64 base factor ≡ base * factor = mul64_plus base factor (omega arith) in
    rw exact (
      rw (signed_lt-small most (base * factor) (omega arith) (omega arith))
        (if_smaller most (base * factor)))

-- What the jitter leaves within a percentage of a delay.
abbrev pub Near : ℕ → ℕ → ℕ → Type 0
Near c pct delay = (delay ≤ c + c * pct / 100) × (c ≤ delay + c * pct / 100)

quot64_plus : (x : ℕ) → x < 2 ^ 63 → quot64 x 100 ≡ x / 100
unfolding quot64
quot64_plus x h = ground arith

quot64_minus : (x : ℕ) → 0 < x → x ≤ 2 ^ 63 → quot64 (2 ^ 64 - x) 100 ≡ (2 ^ 64 - x / 100) % 2 ^ 64
unfolding quot64
quot64_minus x low high =
    let minus : is_minus (2 ^ 64 - x) ≡ true =
      unfold is_minus in lt→ltb (2 ^ 63 - 1) (2 ^ 64 - x) (omega arith) in
    let back : 2 ^ 64 - (2 ^ 64 - x) ≡ x = omega arith in
    rw minus (ap (λ y. (2 ^ 64 - y / 100) % 2 ^ 64) back)

abbrev IsNear : ℕ → ℕ → ℕ → Type 0
IsNear c pct delay = Near c pct delay × (delay < 2 ^ 63)

jitter_up :
    (c pct u k : ℕ)
    → c ≤ 10 ^ 17
    → pct ≤ 50
    → k ≤ pct
    → delta_pct u pct ≡ k
    → IsNear c pct (jitter c pct u)
unfolding jitter add64
jitter_up c pct u k hc hp hk e =
    let less : c * k ≤ c * pct = mul_le k pct c hk in
    let most : c * pct ≤ c * 50 = mul_le pct 50 c hp in
    let product : mul64 c k ≡ c * k = mul64_plus c k (omega arith) in
    let quotient : quot64 (c * k) 100 ≡ c * k / 100 = quot64_plus (c * k) (omega arith) in
    rw e (rw product (rw quotient (omega arith)))

jitter_down :
    (c pct u k : ℕ)
    → c ≤ 10 ^ 17
    → pct ≤ 50
    → k ≤ pct
    → 0 < c * k
    → delta_pct u pct ≡ 2 ^ 64 - k
    → IsNear c pct (jitter c pct u)
unfolding jitter add64
jitter_down c pct u k hc hp hk low e =
    let less : c * k ≤ c * pct = mul_le k pct c hk in
    let most : c * pct ≤ c * 50 = mul_le pct 50 c hp in
    let product : mul64 c (2 ^ 64 - k) ≡ 2 ^ 64 - c * k =
      mul64_minus c k low (omega arith) (omega arith) in
    let quotient = quot64_minus (c * k) low (omega arith) in
    rw e (rw product (rw quotient (omega arith)))

jitter-zero : (pct u : ℕ) → jitter 0 pct u ≡ 0
unfolding jitter add64 mul64 quot64
jitter-zero pct u = let product : 0 * delta_pct u pct ≡ 0 = omega arith in rw product refl

jitter-IsNear : (c pct u : ℕ) → c ≤ 10 ^ 17 → pct ≤ 50 → IsNear c pct (jitter c pct u)
unfolding delta_pct
jitter-IsNear zero pct u hc hp = rw (jitter-zero pct u) (omega arith)
jitter-IsNear (suc c) pct u hc hp =
    let r = u % (pct * 2 + 1) in
    let small : r < pct * 2 + 1 = mod-lt u (omega arith) in
    elim (Bool-cases (leb pct r)) [
      | inl up ↦
          let high = leb→le pct r up in
          jitter_up (suc c) pct u (r - pct) hc hp (omega arith) (omega arith)
      | inr down ↦
          let low = leb→gt pct r down in
          jitter_down (suc c) pct u (pct - r) hc hp (omega arith)
            (mul-pos (omega arith) (omega arith)) (omega arith)
    ]

jitter_small : (p : ℤ) → jitter_or_default p ≤ 50
jitter_small (pos n) = ground arith
jitter_small (negsuc n) = omega arith

at_least_zero_id : (x : ℕ) → x < 2 ^ 63 → at_least_zero x ≡ x
unfolding is_minus
at_least_zero_id x h = ground arith

deterministic_jitter-Near :
    (sha256 : List ℕ → List ℕ) (c pct : ℕ) (parts : List Text)
    → c ≤ 10 ^ 17
    → pct ≤ 50
    → Near c pct (at_least_zero (deterministic_jitter sha256 c pct parts))
unfolding deterministic_jitter
deterministic_jitter-Near sha256 c pct parts hc hp =
    let (near, small) = jitter-IsNear c pct (digest_number sha256 parts) hc hp in
    rw (at_least_zero_id (jitter c pct (digest_number sha256 parts)) small) near

-- Where the delays are not too long for int64 (a base below 2 ^ 43 nanoseconds, about 2.4 hours, and a
-- maximum of at most 10 ^ 17, about 3 years), Decide gives up on an envelope exactly when it has had the
-- maximal number of attempts, and otherwise returns base * 2 ^ attempt (20 at most), cut at the maximum,
-- give or take the jitter's percentage of it: never a negative delay and never one of another order.
pub decide_bounds :
    (sha256 : List ℕ → List ℕ) (p : DefaultRetryPolicy) (env : Envelope)
    → or_default p.base_delay (250 * 10 ^ 6) < 2 ^ 43
    → or_default p.max_delay (30 * 10 ^ 9) ≤ 10 ^ 17
    → let r = decide sha256 p env in
      let att = attempts env.attempt in
      let c =
        plain_delay
          (or_default p.base_delay (250 * 10 ^ 6))
          (or_default p.max_delay (30 * 10 ^ 9))
          att in
      ((r.to_dlq ≡ true) × (or_default p.max_attempts 10 ≤ att))
      ⊎ ((r.to_dlq ≡ false)
          × (att < or_default p.max_attempts 10)
          × Near c (jitter_or_default p.jitter_pct) r.delay)
unfolding decide
decide_bounds sha256 p env hb hm =
    let att = attempts env.attempt in
    let base = or_default p.base_delay (250 * 10 ^ 6) in
    let most = or_default p.max_delay (30 * 10 ^ 9) in
    elim (Bool-cases (leb (or_default p.max_attempts max_recommended_attempts) att)) [
      | inl over ↦ rw over (inl (refl, leb→le _ att over))
      | inr under ↦ rw under (
          inr (
            refl,
            leb→gt _ att under,
            rw (capped_delay-plain_delay base most att hb hm) (
                deterministic_jitter-Near sha256 (plain_delay base most att)
                  (jitter_or_default p.jitter_pct) (retry_parts env) (omega arith)
                  (jitter_small p.jitter_pct)),
          ))
    ]
