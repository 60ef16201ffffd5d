-- ===== src/Idempotency.antt =====
-- Idempotency keys and the store of idempotency records, pkg/idempotency.
pub mod Encode
pub mod Keys
pub mod Store
use chartly.Prelude.{◌≡◌, refl, Option, none, some, Bool, true, false, arith}

-- The sentinel errors of keys.go and store.go, the error of encoding/json, and those of a context.
pub data Error : Type 0 where
  err_invalid err_conflict err_not_owner err_expired err_too_large : Error
  err_invalid_key err_input_too_big err_invalid_scope : Error
  json_error ctx_canceled ctx_deadline : Error

-- A value, or an error: Go's `(A, error)` where the value is not read beside an error.
pub data Result {κ} (T : Type κ) : Type κ where
  err : Error → Result T
  ok : T → Result T

infixl 8 ◌>>=◌ ◌>>◌
abbrev pub ◌>>=◌ {κ ℓ} : {S : Type κ} {T : Type ℓ} → Result S → (S → Result T) → Result T
err x >>= next = err x
ok s >>= next = next s

-- A test that only lets go on.
abbrev pub ◌>>◌ {κ ℓ} : {S : Type κ} {T : Type ℓ} → Result S → Result T → Result T
test >> rest = test >>= (λ _. rest)

-- `if bad { return e }`
abbrev pub refuse : Bool → Error → Result (Unit {0})
refuse true e = err e
refuse false e = ok tt

abbrev pub error_of {ℓ} : {A : Type ℓ} → Result A → Option Error
error_of (ok a) = none
error_of (err e) = some e

-- Both steps of a chain that succeeded did.
pub >>=-eq-ok {κ ℓ} :
    {S : Type κ} {T : Type ℓ} (first : Result S) (next : S → Result T) {t : T}
    → (first >>= next) ≡ ok t
    → (s : S) × (first ≡ ok s) × (next s ≡ ok t)
>>=-eq-ok (err x) next e = absurd (ground arith)
>>=-eq-ok (ok s) next e = (s, refl, e)

pub refuse-eq-ok : (b : Bool) (e : Error) {u : Unit {0}} → refuse b e ≡ ok u → b ≡ false
refuse-eq-ok true e h = cc
refuse-eq-ok false e h = refl
