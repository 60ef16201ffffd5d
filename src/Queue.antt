-- ===== src/Queue.antt =====
-- Envelopes and their normalisation, pkg/queue/queue.go. QueueName and EnvelopeID, whose
-- declarations are commented out, are strings. A map stands in any order.
pub mod Normalized
pub mod Retry
pub mod Delays
pub mod Worker
pub mod Settled
pub mod Dlq
mod Tests
use chartly.Prelude.{
  ℕ, zero, ◌+◌, ◌*◌, ◌≡◌, Bool, true, false, not, ◌&&◌, ◌||◌, Option, none, some, List, [], ◌∷◌,
  ◌++◌, map, ◌⊎◌, inl, inr, if◌then◌else◌, ltb, leb, ◌==◌, length, take,
}
use chartly.Prelude.Int.{ℤ, pos, negsuc, is_zero}
use chartly.Text.{Text, lit, is_empty, trim_space, to_lower}
use chartly.Text.Sort.{sort}
use chartly.Dict.{Dict, lookup, insert}
use chartly.Idempotency.Encode.{hex_encode, format_int}

-- Times are nanoseconds. `headers` is none where the map is nil.
pub record Envelope : Type 0 where
  pub queue : Text
  pub id : Text
  pub type : Text
  pub tenant : Text
  pub produced_at : ℕ
  pub attempt : ℤ
  pub visibility_deadline : ℕ
  pub dedup_key : Text
  pub headers : Option (Dict Text)
  pub payload_bytes : ℤ
  pub payload : List ℕ

pub data Error : Type 0 where
  attempt_negative payload_negative type_required type_too_long dedup_too_long : Error
  oversize size_mismatch : Error

abbrev pub max_header_pairs : ℕ
max_header_pairs = 64

abbrev pub max_header_key_len : ℕ
max_header_key_len = 64

abbrev pub max_header_val_len : ℕ
max_header_val_len = 256

-- 4 MiB
abbrev pub default_max_payload_bytes : ℕ
default_max_payload_bytes = 4 * 1024 * 1024

abbrev pub max_recommended_attempts : ℕ
max_recommended_attempts = 10

abbrev pub or_empty : Option Text → Text
or_empty none = []
or_empty (some s) = s

abbrev pub header_key : Text → Text
header_key k = to_lower (trim_space k)

unfoldable pub header_value : Text → Text
unfolding trim_space
header_value v =
    if ltb max_header_val_len (length (trim_space v))
    then take max_header_val_len (trim_space v)
    else trim_space v

unfoldable pub bad_key : Text → Bool
bad_key k = is_empty k || ltb max_header_key_len (length k)

-- The loop over the sorted keys, until `most` pairs are there.
unfoldable pub clean_headers : ℕ → Dict Text → List Text → Dict Text → Dict Text
unfolding trim_space to_lower header_value bad_key insert lookup
clean_headers most m [] clean = clean
clean_headers most m (k ∷ ks) clean =
    let next = insert (header_key k) (header_value (or_empty (lookup k m))) clean in
    let skipped = clean_headers most m ks clean in
    let more = clean_headers most m ks next in
    if bad_key (header_key k) then skipped else if leb most (length next) then next else more

abbrev pub none_if_empty : Dict Text → Option (Dict Text)
none_if_empty [] = none
none_if_empty (h ∷ hs) = some (h ∷ hs)

-- The cleaning of a map, with the number of pairs that it keeps.
unfoldable pub normalize_pairs : ℕ → Option (Dict Text) → Option (Dict Text)
unfolding clean_headers sort
normalize_pairs most none = none
normalize_pairs most (some m) = none_if_empty (clean_headers most m (sort (map (λ p. p.0) m)) [])

unfoldable pub normalize_headers : Option (Dict Text) → Option (Dict Text)
unfolding normalize_pairs
normalize_headers headers = normalize_pairs max_header_pairs headers

abbrev pub is_negative : ℤ → Bool
is_negative (pos n) = false
is_negative (negsuc n) = true

-- `n > limit`
abbrev pub above : ℤ → ℕ → Bool
above (pos n) limit = ltb limit n
above (negsuc n) limit = false

-- `n == len`
abbrev pub equals : ℤ → ℕ → Bool
equals (pos n) len = n == len
equals (negsuc n) len = false

abbrev pub declared : ℤ → List ℕ → ℤ
declared n payload = if is_zero n && ltb 0 (length payload) then pos (length payload) else n

abbrev pub trimmed : Envelope → Envelope
trimmed env = record env {
  type = trim_space env.type;
  tenant = trim_space env.tenant;
  dedup_key = trim_space env.dedup_key;
  headers = normalize_headers env.headers;
  payload_bytes = declared env.payload_bytes env.payload;
}

-- The checks after the headers.
unfoldable pub check_envelope : Envelope → Error ⊎ Envelope
check_envelope env =
    if is_empty env.type
    then inl type_required
    else if ltb 128 (length env.type)
    then inl type_too_long
    else if not (is_empty env.dedup_key) && ltb 256 (length env.dedup_key)
    then inl dedup_too_long
    else if above env.payload_bytes default_max_payload_bytes
    then inl oversize
    else if ltb 0 (length env.payload) && not (equals env.payload_bytes (length env.payload))
    then inl size_mismatch
    else inr env

unfoldable pub normalize_envelope : Envelope → Error ⊎ Envelope
unfolding check_envelope normalize_headers trim_space
normalize_envelope env =
    if is_negative env.attempt
    then inl attempt_negative
    else if is_negative env.payload_bytes
    then inl payload_negative
    else check_envelope (trimmed env)

abbrev pub error_of {ℓ} : {A : Type ℓ} → Error ⊎ A → Option Error
error_of (inl e) = some e
error_of (inr a) = none

unfoldable pub validate : Envelope → Option Error
unfolding normalize_envelope
validate env = error_of (normalize_envelope env)

-- A part of the hash, ended by NUL.
abbrev pub part : Text → Text
part s = s ++ 0 ∷ []

unfoldable pub header_parts : Dict Text → List Text → Text
unfolding lookup
header_parts m [] = []
header_parts m (k ∷ ks) = part (lit "h:" ++ k) ++ part (or_empty (lookup k m)) ++ header_parts m ks

abbrev pub all_headers : Option (Dict Text) → Text
all_headers none = []
all_headers (some m) = header_parts m (sort (map (λ p. p.0) m))

unfoldable pub hash_input : Envelope → Text
unfolding header_parts format_int sort
hash_input n =
    part n.queue
    ++ part n.id
    ++ part n.type
    ++ part n.tenant
    ++ part n.dedup_key
    ++ part (format_int n.attempt)
    ++ part (format_int n.payload_bytes)
    ++ all_headers n.headers
    ++ n.payload

abbrev pub hashed : (List ℕ → List ℕ) → Error ⊎ Envelope → Error ⊎ Text
hashed sha256 (inl e) = inl e
hashed sha256 (inr n) = inr (hex_encode (sha256 (hash_input n)))

-- `sha256` is SHA-256, from bytes to bytes.
unfoldable pub stable_envelope_hash : (List ℕ → List ℕ) → Envelope → Error ⊎ Text
unfolding normalize_envelope hash_input hex_encode
stable_envelope_hash sha256 env = hashed sha256 (normalize_envelope env)
