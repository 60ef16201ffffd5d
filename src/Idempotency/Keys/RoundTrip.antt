-- ===== src/Idempotency/Keys/RoundTrip.antt =====
-- What `parse_key` reads in a key that `build_key` makes.
use chartly.Prelude.{
  ℕ, ◌*◌, ◌/◌, ◌%◌, ◌≤◌, ◌<◌, ◌≡◌, refl, ap, ◌∙◌, true, false, List, [], ◌∷◌, ◌++◌, if◌then◌else◌,
  length, take, all, all-imp, all-append, All, length-append, length-take, arith,
}
use chartly.Text.{
  Text, lit, text_eq, is_empty, is_space, trim_space, to_lower, lower_byte, split, contains_byte,
}
use chartly.Text.Laws.{not_space, trim_space_id, split-append, split_single}
use chartly.Idempotency.{ok}
use chartly.Idempotency.Encode.{hex_digit, hex_encode}
use chartly.Idempotency.Keys.{
  key_version, is_name_byte, name_bytes, or_local, normalize_tenant, validate_tenant,
  normalize_scope, is_hex_byte, is_lower_hex, parse_fields, parse_key, join_key,
}

-- A text that may stand between two colons.
pub record IsField (s : Text) : Type 0 where
  pub names : all is_name_byte s ≡ true
  pub filled : is_empty s ≡ false

name-not_space : (c : ℕ) → is_name_byte c ≡ true → not_space c ≡ true
unfolding is_name_byte is_space
name-not_space c h = ground arith

hex-is_name : (c : ℕ) → is_hex_byte c ≡ true → is_name_byte c ≡ true
unfolding is_name_byte is_hex_byte
hex-is_name c h = ground arith

names-no_colon : (s : Text) → all is_name_byte s ≡ true → contains_byte b':' s ≡ false
unfolding contains_byte is_name_byte
names-no_colon [] h = refl
names-no_colon (c ∷ s) h = ground (arith, names-no_colon s)

to_lower_id : (s : Text) → all is_name_byte s ≡ true → to_lower s ≡ s
unfolding to_lower lower_byte is_name_byte
to_lower_id [] h = refl
to_lower_id (c ∷ s) h = ground (arith, to_lower_id s)

all-name_bytes : (s : Text) → all is_name_byte (name_bytes s) ≡ true
unfolding name_bytes
all-name_bytes [] = refl
all-name_bytes (c ∷ s) = ground (arith, all-name_bytes s)

length-name_bytes : (s : Text) → length (name_bytes s) ≤ length s
unfolding name_bytes
length-name_bytes [] = omega arith
length-name_bytes (c ∷ s) = ground (arith, length-name_bytes s)

-- A normalised tenant is made of name bytes, is not empty, and has at most 64 bytes.
pub normalize_tenant_valid :
    (t : Text) → IsField (normalize_tenant t) × (length (normalize_tenant t) ≤ 64)
unfolding normalize_tenant is_name_byte
normalize_tenant_valid t =
    go (to_lower (trim_space t)) (name_bytes (take 64 (to_lower (trim_space t))))
      (all-name_bytes (take 64 (to_lower (trim_space t))))
      (omega (
        arith,
        length-name_bytes (take 64 (to_lower (trim_space t))),
        length-take 64 (to_lower (trim_space t)),
      ))
  where
    go :
        (s n : Text)
        → all is_name_byte n ≡ true
        → length n ≤ 64
        → let t' = if is_empty s then lit "local" else or_local n in IsField t' × (length t' ≤ 64)
    go [] n h l = (record { names = refl; filled = refl }, omega arith)
    go (c ∷ s) [] h l = (record { names = refl; filled = refl }, omega arith)
    go (c ∷ s) (d ∷ n) h l = (record { names = h; filled = refl }, l)

-- A normalised scope is made of name bytes, is not empty, and has at most 32 bytes.
pub normalize_scope_valid :
    (s : Text) {n : Text} → normalize_scope s ≡ ok n → IsField n × (length n ≤ 32)
unfolding normalize_scope
normalize_scope_valid s h = (record { names = ground arith; filled = ground arith }, ground arith)

-- What is normalised already stays as it is.
pub normalize_scope_fixed : (n : Text) → IsField n → length n ≤ 32 → normalize_scope n ≡ ok n
unfolding normalize_scope
normalize_scope_fixed n f l =
    rw
      (
        trim_space_id n (all-imp is_name_byte not_space name-not_space n f.names),
        to_lower_id n f.names,
      )
      (ground (arith, f.names, f.filled))

validate_tenant_valid : (t : Text) → IsField t → length t ≤ 64 → validate_tenant t ≡ ok tt
unfolding validate_tenant
validate_tenant_valid t f l = ground (arith, f.names, f.filled)

hex_digit-is_hex : (n : ℕ) → n < 16 → is_hex_byte (hex_digit n) ≡ true
unfolding hex_digit is_hex_byte
hex_digit-is_hex n h = ground arith

pub hex_encode-is_hex : (bs : List ℕ) → All (λ b. b < 256) bs → is_lower_hex (hex_encode bs) ≡ true
unfolding hex_encode is_lower_hex
hex_encode-is_hex [] h = refl
hex_encode-is_hex (b ∷ bs) h =
    rw (hex_digit-is_hex (b / 16) (omega arith), hex_digit-is_hex (b % 16) (omega arith))
      (hex_encode-is_hex bs h.1)

pub length-hex_encode : (bs : List ℕ) → length (hex_encode bs) ≡ 2 * length bs
unfolding hex_encode
length-hex_encode [] = refl
length-hex_encode (b ∷ bs) = omega (arith, length-hex_encode bs)

-- The text of a hash.
pub record IsHash (h : Text) : Type 0 where
  pub hex : is_lower_hex h ≡ true
  pub size : length h ≡ 64

hash-is_name : (h : Text) → IsHash h → all is_name_byte h ≡ true
unfolding is_lower_hex
hash-is_name h v = all-imp is_hex_byte is_name_byte hex-is_name h v.hex

hash-filled : (h : Text) → IsHash h → is_empty h ≡ false
hash-filled [] v = absurd (omega (arith, v.size))
hash-filled (c ∷ h) v = refl

module _ (t s h : Text) (ft : IsField t) (lt : length t ≤ 64) (fs : IsField s) (ls : length s ≤ 32)
    (vh : IsHash h) where
  join_key-not_space : all not_space (join_key key_version t s h) ≡ true
  unfolding is_space
  join_key-not_space =
      all-append not_space t _ (spaceless t ft.names)
        (all-append not_space s _ (spaceless s fs.names) (spaceless h (hash-is_name h vh)))
    where
      spaceless : (w : Text) → all is_name_byte w ≡ true → all not_space w ≡ true
      spaceless w = all-imp is_name_byte not_space name-not_space w

  pub length-join_key : length (join_key key_version t s h) ≤ 165
  length-join_key =
      omega (arith, length-append t (b':' ∷ (s ++ b':' ∷ h)), length-append s (b':' ∷ h), vh.size)

  split-join_key : split b':' (join_key key_version t s h) ≡ key_version ∷ t ∷ s ∷ h ∷ []
  split-join_key =
      split-append b':' key_version (t ++ b':' ∷ (s ++ b':' ∷ h)) (unfold contains_byte in refl)
      ∙ ap (◌∷◌ key_version) (
          split-append b':' t (s ++ b':' ∷ h) (names-no_colon t ft.names)
          ∙ ap (◌∷◌ t) (
              split-append b':' s h (names-no_colon s fs.names)
              ∙ ap (◌∷◌ s) (split_single b':' h (names-no_colon h (hash-is_name h vh)))))

  parse_fields-valid :
      parse_fields (key_version ∷ t ∷ s ∷ h ∷ [])
      ≡ ok (record { version = key_version; tenant = t; scope = s; hash = h })
  unfolding parse_fields text_eq
  parse_fields-valid =
      rw (validate_tenant_valid t ft lt, normalize_scope_fixed s fs ls, hash-filled h vh, vh.hex)
        (ground (arith, vh.size))

  -- Valid fields make a valid key.
  pub parse_key-join_key :
      parse_key (join_key key_version t s h)
      ≡ ok (record { version = key_version; tenant = t; scope = s; hash = h })
  unfolding parse_key
  parse_key-join_key =
      rw (trim_space_id (join_key key_version t s h) join_key-not_space, split-join_key)
        (rw parse_fields-valid (ground (arith, length-join_key)))
