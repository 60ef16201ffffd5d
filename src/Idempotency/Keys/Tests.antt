-- ===== src/Idempotency/Keys/Tests.antt =====
-- Keys on concrete inputs, and the theorems at concrete inputs.
use chartly.Prelude.{
  ℕ, ◌≡◌, ◌≢◌, refl, Bool-cases, inl, inr, ap, some, List, [], ◌∷◌, replicate, arith,
}
use chartly.Prelude.Int.{pos}
use chartly.Text.{Text, lit, text_eq, is_space, trim_space, to_lower}
use chartly.Text.Laws.{text_eq_iff}
use chartly.Dict.{Dict, lookup}
use chartly.Idempotency.{ok}
use chartly.Idempotency.Encode.{Value, str, int, hex_encode, lower_key, encode_deterministic}
use chartly.Idempotency.Keys.{
  key_version, is_name_byte, normalize_tenant, normalize_scope, parse_key, join_key, build_key,
  build_key_from_map,
}
use chartly.Idempotency.Keys.Built.{
  IsDigest, build_key_succeeds, build_key-parse_key, build_key_from_map_forgets,
}

-- A stand-in for SHA-256: 32 zero bytes.
abbrev zeros : List ℕ → List ℕ
zeros b = replicate 32 0

zeros-IsDigest : IsDigest zeros
zeros-IsDigest b = (refl, omega arith)

abbrev parts : List Value
parts = str (lit "a\"") ∷ int (pos 10) ∷ []

abbrev encoded : Text
encoded = lit "[\"a\\\"\",10]"

encode_parts : encode_deterministic parts ≡ ok encoded
unfolding encode_deterministic
encode_parts = refl

scope_jobs : normalize_scope (lit " Jobs") ≡ ok (lit "jobs")
unfolding normalize_scope trim_space to_lower is_space is_name_byte
scope_jobs = refl

build_key_succeeds_example :
    build_key zeros (lit "Acme") (lit " Jobs") parts
    ≡ ok (
        join_key key_version
          (normalize_tenant (lit "Acme"))
          (lit "jobs")
          (hex_encode (zeros encoded)))
build_key_succeeds_example =
    build_key_succeeds zeros zeros-IsDigest (lit "Acme") (lit " Jobs") parts scope_jobs
      (omega arith) encode_parts (omega arith)

build_key-parse_key_example :
    (s : Text) × (b : Text) × (normalize_scope (lit " Jobs") ≡ ok s)
    × (encode_deterministic parts ≡ ok b)
    × (parse_key (
          join_key key_version
            (normalize_tenant (lit "Acme"))
            (lit "jobs")
            (hex_encode (zeros encoded)))
        ≡ ok (record {
          version = key_version;
          tenant = normalize_tenant (lit "Acme");
          scope = s;
          hash = hex_encode (zeros b);
        }))
build_key-parse_key_example =
    build_key-parse_key zeros zeros-IsDigest (lit "Acme") (lit " Jobs") parts
      build_key_succeeds_example

-- Two maps that differ in the value under "Amount".
abbrev amount : Value → Dict Value
amount v = (lit "Amount", v) ∷ []

abbrev first_byte : Text → ℕ
first_byte [] = 0
first_byte (c ∷ s) = c

not_lowered : lower_key (lit "Amount") ≢ lit "Amount"
unfolding trim_space to_lower is_space
not_lowered e = omega (arith, ap first_byte e)

amounts_agree :
    (k : Text) → lower_key k ≡ k → lookup k (amount (int (pos 1))) ≡ lookup k (amount (int (pos 2)))
unfolding lookup
amounts_agree k h = elim (Bool-cases (text_eq (lit "Amount") k)) [
  | inr e ↦ rw e
  | inl e ↦ absurd (not_lowered (rw ((text_eq_iff (lit "Amount") k).0 e) h))
]

build_key_from_map_forgets_example :
    build_key_from_map zeros (lit "t") (lit "s") (some (amount (int (pos 1))))
    ≡ build_key_from_map zeros (lit "t") (lit "s") (some (amount (int (pos 2))))
unfolding trim_space to_lower is_space
build_key_from_map_forgets_example =
    build_key_from_map_forgets zeros (lit "t") (lit "s") (amount (int (pos 1)))
      (amount (int (pos 2))) refl amounts_agree
