-- ===== src/Idempotency/Keys.antt =====
-- Idempotency keys, pkg/idempotency/keys.go. SHA-256 is a parameter of what computes a key: it
-- gives the bytes of a digest.
pub mod RoundTrip
pub mod Built
mod Tests
use chartly.Prelude.{
  ℕ, ◌*◌, Bool, true, false, not, ◌&&◌, ◌||◌, Option, none, some, List, [], ◌∷◌, ◌++◌, leb, ltb,
  ◌==◌, if◌then◌else◌, length, take, all,
}
use chartly.Text.{Text, lit, text_eq, is_empty, trim_space, to_lower, split}
use chartly.Text.Sort.{sort}
use chartly.Dict.{Dict, lookup}
use chartly.Idempotency.{
  Error, Result, ok, err, err_invalid_key, err_input_too_big, err_invalid_scope, refuse, error_of,
  ◌>>=◌, ◌>>◌,
}
use chartly.Idempotency.Encode.{
  Value, null, str, hex_encode, keys_of, drop_empty, encode_deterministic,
}

abbrev pub key_version : Text
key_version = lit "v1"

abbrev pub max_tenant_len : ℕ
max_tenant_len = 64

abbrev pub max_scope_len : ℕ
max_scope_len = 32

abbrev pub max_key_len : ℕ
max_key_len = 256

abbrev pub max_parts : ℕ
max_parts = 32

abbrev pub max_bytes : ℕ
max_bytes = 32 * 1024

pub record KeyParts : Type 0 where
  pub version : Text
  pub tenant : Text
  pub scope : Text
  pub hash : Text

-- [a-z0-9_-]
unfoldable pub is_name_byte : ℕ → Bool
is_name_byte c =
    (leb b'a' c && leb c b'z') || ((leb b'0' c && leb c b'9') || ((c == b'_') || (c == b'-')))

unfoldable pub name_bytes : Text → Text
unfolding is_name_byte
name_bytes [] = []
name_bytes (c ∷ s) = let rest = name_bytes s in if is_name_byte c then c ∷ rest else rest

abbrev pub or_local : Text → Text
or_local [] = lit "local"
or_local (c ∷ s) = c ∷ s

unfoldable pub normalize_tenant : Text → Text
unfolding name_bytes
normalize_tenant t =
    let t' = to_lower (trim_space t) in
    if is_empty t' then lit "local" else or_local (name_bytes (take max_tenant_len t'))

unfoldable pub validate_tenant : Text → Result (Unit {0})
validate_tenant t = do
  refuse (is_empty t || ltb max_tenant_len (length t)) err_invalid_key
  refuse (not (all is_name_byte t)) err_invalid_key

unfoldable pub normalize_scope : Text → Result Text
normalize_scope s = do
  let s' = to_lower (trim_space s)
  refuse (is_empty s' || ltb max_scope_len (length s')) err_invalid_scope
  refuse (not (all is_name_byte s')) err_invalid_scope
  ok s'

unfoldable pub is_hex_byte : ℕ → Bool
is_hex_byte c = (leb b'0' c && leb c b'9') || (leb b'a' c && leb c b'f')

unfoldable pub is_lower_hex : Text → Bool
unfolding is_hex_byte
is_lower_hex = all is_hex_byte

unfoldable pub parse_fields : List Text → Result KeyParts
parse_fields (v ∷ tenant ∷ scope ∷ hash ∷ []) = do
  refuse (not (text_eq v key_version)) err_invalid_key
  validate_tenant tenant
  nscope ← normalize_scope scope
  refuse (is_empty hash || (not (length hash == 64) || not (is_lower_hex hash))) err_invalid_key
  ok (record { version = v; tenant = tenant; scope = nscope; hash = hash })
parse_fields _ = err err_invalid_key

unfoldable pub parse_key : Text → Result KeyParts
unfolding parse_fields
parse_key key = do
  let key' = trim_space key
  refuse (is_empty key' || ltb max_key_len (length key')) err_invalid_key
  parse_fields (split b':' key')

unfoldable pub validate_key : Text → Option Error
unfolding parse_key
validate_key key = error_of (parse_key key)

-- fmt.Sprintf("%s:%s:%s:%s", ...)
abbrev pub join_key : Text → Text → Text → Text → Text
join_key v tenant scope hash = v ++ b':' ∷ (tenant ++ b':' ∷ (scope ++ b':' ∷ hash))

module _ (sha256 : List ℕ → List ℕ) where
  unfoldable pub build_key : Text → Text → List Value → Result Text
  build_key tenant scope parts = do
    let tenant' = normalize_tenant tenant
    scope' ← normalize_scope scope
    refuse (ltb max_parts (length parts)) err_input_too_big
    b ← encode_deterministic parts
    refuse (ltb max_bytes (length b)) err_input_too_big
    let key = join_key key_version tenant' scope' (hex_encode (sha256 b))
    refuse (ltb max_key_len (length key)) err_invalid_key
    ok key

-- The value at a key, nil if the map lacks it.
abbrev pub value_at : Dict Value → Text → Value
value_at m k = elim (lookup k m) [ none ↦ null | some v ↦ v ]

abbrev pub parts_of : Dict Value → List Text → List Value
parts_of m [] = []
parts_of m (k ∷ ks) = str k ∷ value_at m k ∷ parts_of m ks

module _ (sha256 : List ℕ → List ℕ) where
  -- `none` is the nil map, for which the one part is nil.
  unfoldable pub build_key_from_map : Text → Text → Option (Dict Value) → Result Text
  build_key_from_map tenant scope none = build_key sha256 tenant scope (null ∷ [])
  build_key_from_map tenant scope (some m) =
      build_key sha256 tenant scope (parts_of m (drop_empty (sort (keys_of m))))
