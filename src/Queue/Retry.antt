-- ===== src/Queue/Retry.antt =====
-- The retry policy of pkg/queue/consumer.go. Durations and counts are int64 words.
use chartly.Prelude.{
  ℕ, ◌+◌, ◌-◌, ◌*◌, ◌%◌, ◌^◌, Bool, true, false, ◌&&◌, List, [], ◌∷◌, ◌++◌, if◌then◌else◌, ltb, leb,
  take,
}
use Prim.Native.Nat.{min}
use chartly.Prelude.Int.{ℤ, pos, negsuc, or_default}
use chartly.Prelude.Word.{is_minus, signed_lt, add64, mul64, quot64}
use chartly.Text.{Text, lit}
use chartly.Idempotency.Encode.{format_uint}
use chartly.Queue.{Envelope, max_recommended_attempts}

pub record DefaultRetryPolicy : Type 0 where
  pub max_attempts : ℤ
  pub base_delay : ℤ
  pub max_delay : ℤ
  pub jitter_pct : ℤ

pub record RetryDecision : Type 0 where
  pub delay : ℕ
  pub to_dlq : Bool
  pub reason : Text

-- binary.LittleEndian.Uint64
unfoldable pub little_endian : List ℕ → ℕ
little_endian [] = 0
little_endian (b ∷ bs) = b + 256 * little_endian bs

abbrev pub jitter_parts : List Text → Text
jitter_parts [] = []
jitter_parts (p ∷ ps) = p ++ 0 ∷ jitter_parts ps

-- `int(u % span) - pct` as a word.
unfoldable pub delta_pct : ℕ → ℕ → ℕ
delta_pct u pct = (u % (pct * 2 + 1) + (2 ^ 64 - pct)) % 2 ^ 64

-- For a percentage from 1 to 50, as its callers have it; `u` is the number that the digest gives.
unfoldable pub jitter : ℕ → ℕ → ℕ → ℕ
unfolding add64 mul64 quot64 delta_pct
jitter base pct u = add64 base (quot64 (mul64 base (delta_pct u pct)) 100)

abbrev pub jitter_or_default : ℤ → ℕ
jitter_or_default (pos n) = if (ltb 0 n && leb n 50) then n else 20
jitter_or_default (negsuc n) = 20

-- Below zero an attempt counts as 0.
abbrev pub attempts : ℤ → ℕ
attempts (pos n) = n
attempts (negsuc n) = 0

-- The delay before the jitter.
unfoldable pub capped_delay : ℕ → ℕ → ℕ → ℕ
unfolding mul64 signed_lt
capped_delay base most att =
    let delay = mul64 base (2 ^ min att 20) in if signed_lt most delay then most else delay

abbrev pub at_least_zero : ℕ → ℕ
at_least_zero x = if is_minus x then 0 else x

abbrev pub retry_parts : Envelope → List Text
retry_parts env =
    lit "retry" ∷ env.id ∷ env.type ∷ env.tenant ∷ format_uint (attempts env.attempt) ∷ []

module _ (sha256 : List ℕ → List ℕ) where
  unfoldable pub digest_number : List Text → ℕ
  unfolding little_endian
  digest_number parts = little_endian (take 8 (sha256 (jitter_parts parts)))

  unfoldable pub deterministic_jitter : ℕ → ℕ → List Text → ℕ
  unfolding jitter digest_number
  deterministic_jitter base pct parts = jitter base pct (digest_number parts)

  unfoldable pub decide : DefaultRetryPolicy → Envelope → RetryDecision
  unfolding deterministic_jitter capped_delay is_minus
  decide p env =
      let max_att = or_default p.max_attempts max_recommended_attempts in
      let att = attempts env.attempt in
      let base = or_default p.base_delay (250 * 10 ^ 6) in
      let most = or_default p.max_delay (30 * 10 ^ 9) in
      if leb max_att att
      then record {
        to_dlq = true;
        delay = 0;
        reason = lit "max_attempts_exceeded:" ++ format_uint max_att;
      }
      else record {
        delay = at_least_zero (
            deterministic_jitter (capped_delay base most att) (jitter_or_default p.jitter_pct)
              (retry_parts env));
        to_dlq = false;
        reason = [];
      }
