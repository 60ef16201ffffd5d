-- ===== src/Idempotency/Keys/Built.antt =====
-- What `BuildKey` and `BuildKeyFromMap` promise of the keys that they make.
use chartly.Prelude.{
  ℕ, ◌≤◌, ◌<◌, ◌≡◌, refl, ap, sym, ◌∙◌, Bool-cases, inl, inr, some, List, [], ◌∷◌, length, All, ltb,
  arith,
}
use chartly.Text.{Text, text_lt}
use chartly.Text.Laws.{to_lower_idem, trim_space_idem, trim_space-to_lower}
use chartly.Text.Sort.{sort, place}
use chartly.Dict.{Dict, lookup}
use chartly.Idempotency.{ok, refuse, >>=-eq-ok}
use chartly.Idempotency.Encode.{
  Value, hex_encode, keys_of, drop_empty, lower_key, encode_deterministic,
}
use chartly.Idempotency.Keys.{
  key_version, max_parts, max_bytes, normalize_tenant, normalize_scope, parse_key, join_key,
  build_key, parts_of, build_key_from_map,
}
use chartly.Idempotency.Keys.RoundTrip.{
  IsHash, normalize_tenant_valid, normalize_scope_valid, hex_encode-is_hex, length-hex_encode,
  length-join_key, parse_key-join_key,
}

-- What SHA-256 gives: 32 bytes.
abbrev pub IsDigest : (List ℕ → List ℕ) → Type 0
IsDigest sha256 = (b : List ℕ) → (length (sha256 b) ≡ 32) × All (λ x. x < 256) (sha256 b)

module _ (sha256 : List ℕ → List ℕ) (digest : IsDigest sha256) where
  hex_encode-IsHash : (b : Text) → IsHash (hex_encode (sha256 b))
  hex_encode-IsHash b = record {
    hex = hex_encode-is_hex (sha256 b) (digest b).1;
    size = omega (arith, length-hex_encode (sha256 b), (digest b).0);
  }

  length-built :
      (tenant scope : Text) {s : Text} (b : Text)
      → normalize_scope scope ≡ ok s
      → length (join_key key_version (normalize_tenant tenant) s (hex_encode (sha256 b))) ≤ 165
  length-built tenant scope {s} b e =
      let (ft, lt) = normalize_tenant_valid tenant in
      let (fs, ls) = normalize_scope_valid scope e in
      length-join_key (normalize_tenant tenant) s (hex_encode (sha256 b)) ft lt fs ls
        (hex_encode-IsHash b)

  -- `BuildKey` succeeds whenever the scope is valid, there are at most 32 parts, and they have an
  -- encoding of at most 32 KiB: a key is never too long. The key is the version, the normalised
  -- tenant, the normalised scope and the hash of the encoding, joined by colons.
  pub build_key_succeeds :
      (tenant scope : Text) (parts : List Value) {s b : Text}
      → normalize_scope scope ≡ ok s
      → length parts ≤ max_parts
      → encode_deterministic parts ≡ ok b
      → length b ≤ max_bytes
      → build_key sha256 tenant scope parts
        ≡ ok (join_key key_version (normalize_tenant tenant) s (hex_encode (sha256 b)))
  unfolding build_key
  build_key_succeeds tenant scope parts {s} {b} e few enc small =
      rw (e, enc) (ground (arith, length-built tenant scope b e))

  -- A key that `BuildKey` returns is read back by `ParseKey`: as version v1, the normalised tenant,
  -- the normalised scope, and the hash of the encoding of the parts.
  pub build_key-parse_key :
      (tenant scope : Text) (parts : List Value) {key : Text}
      → build_key sha256 tenant scope parts ≡ ok key
      → (s : Text) × (b : Text) × (normalize_scope scope ≡ ok s)
        × (encode_deterministic parts ≡ ok b)
        × (parse_key key
            ≡ ok (record {
              version = key_version;
              tenant = normalize_tenant tenant;
              scope = s;
              hash = hex_encode (sha256 b);
            }))
  unfolding build_key
  build_key-parse_key tenant scope parts {key} h =
      let (s, es, h₁) = >>=-eq-ok (normalize_scope scope) _ h in
      let (u, e₂, h₂) = >>=-eq-ok (refuse (ltb max_parts (length parts)) _) _ h₁ in
      let (b, eb, h₃) = >>=-eq-ok (encode_deterministic parts) _ h₂ in
      let (ft, lt) = normalize_tenant_valid tenant in
      let (fs, ls) = normalize_scope_valid scope es in
      let built : key ≡ join_key key_version (normalize_tenant tenant) s (hex_encode (sha256 b)) =
        ground arith in
      (
        s,
        b,
        es,
        eb,
        ap parse_key built
            ∙ parse_key-join_key (normalize_tenant tenant) s (hex_encode (sha256 b)) ft lt fs ls
                (hex_encode-IsHash b),
      )

  -- Keys keep tenants and scopes apart: two calls that return one key had the same normalised
  -- tenant, the same normalised scope, and encodings with the same hash.
  pub build_key_separates :
      (tenant₁ tenant₂ scope₁ scope₂ : Text) (parts₁ parts₂ : List Value) {key : Text}
      → build_key sha256 tenant₁ scope₁ parts₁ ≡ ok key
      → build_key sha256 tenant₂ scope₂ parts₂ ≡ ok key
      → (normalize_tenant tenant₁ ≡ normalize_tenant tenant₂)
        × (normalize_scope scope₁ ≡ normalize_scope scope₂)
        × ((b₁ : Text) × (b₂ : Text) × (encode_deterministic parts₁ ≡ ok b₁)
            × (encode_deterministic parts₂ ≡ ok b₂)
            × (hex_encode (sha256 b₁) ≡ hex_encode (sha256 b₂)))
  build_key_separates tenant₁ tenant₂ scope₁ scope₂ parts₁ parts₂ h₁ h₂ =
      let (s₁, b₁, es₁, eb₁, p₁) = build_key-parse_key tenant₁ scope₁ parts₁ h₁ in
      let (s₂, b₂, es₂, eb₂, p₂) = build_key-parse_key tenant₂ scope₂ parts₂ h₂ in
      let same = sym p₁ ∙ p₂ in (cc same, cc (same, es₁, es₂), (b₁, b₂, eb₁, eb₂, cc same))

abbrev IsLowered : Text → Type 0
IsLowered k = lower_key k ≡ k

lower_key_idem : (k : Text) → lower_key (lower_key k) ≡ lower_key k
lower_key_idem k = rw (trim_space-to_lower, trim_space_idem, to_lower_idem)

All-keys_of : (m : Dict Value) → All IsLowered (keys_of m)
All-keys_of [] = tt
All-keys_of ((k, v) ∷ m) = (lower_key_idem k, All-keys_of m)

All-place :
    (x : Text) (ks : List Text) → IsLowered x → All IsLowered ks → All IsLowered (place x ks)
unfolding place
All-place x [] h hs = (h, tt)
All-place x (y ∷ ks) h hs = elim (Bool-cases (text_lt y x)) [
  | inl e ↦ rw e (hs.0, All-place x ks h hs.1)
  | inr e ↦ rw e (h, (hs.0, hs.1))
]

All-sort : (ks : List Text) → All IsLowered ks → All IsLowered (sort ks)
unfolding sort
All-sort [] h = tt
All-sort (k ∷ ks) h = All-place k (sort ks) h.0 (All-sort ks h.1)

All-drop_empty : (ks : List Text) → All IsLowered ks → All IsLowered (drop_empty ks)
All-drop_empty [] h = tt
All-drop_empty ([] ∷ ks) h = All-drop_empty ks h.1
All-drop_empty ((c ∷ k) ∷ ks) h = (h.0, All-drop_empty ks h.1)

parts_of-eq :
    (m m' : Dict Value)
    → ((k : Text) → IsLowered k → lookup k m ≡ lookup k m')
    → (ks : List Text) → All IsLowered ks
    → parts_of m ks ≡ parts_of m' ks
parts_of-eq m m' h [] a = refl
parts_of-eq m m' h (k ∷ ks) a = ground (arith, h k a.0, parts_of-eq m m' h ks a.1)

-- `BuildKeyFromMap` reads a value only under the trimmed and lower-case form of its key: two maps
-- with the same normalised keys, that agree where a key is already in that form, have one key,
-- whatever they hold under other keys.
pub build_key_from_map_forgets :
    (sha256 : List ℕ → List ℕ) (tenant scope : Text) (m m' : Dict Value)
    → keys_of m ≡ keys_of m'
    → ((k : Text) → lower_key k ≡ k → lookup k m ≡ lookup k m')
    → build_key_from_map sha256 tenant scope (some m)
      ≡ build_key_from_map sha256 tenant scope (some m')
unfolding build_key_from_map
build_key_from_map_forgets sha256 tenant scope m m' same agree =
    ap (build_key sha256 tenant scope) (
      parts_of-eq m m' agree (drop_empty (sort (keys_of m)))
        (All-drop_empty (sort (keys_of m)) (All-sort (keys_of m) (All-keys_of m)))
      ∙ ap (λ ks. parts_of m' (drop_empty (sort ks))) same)
