-- ===== src/Queue/Dlq.antt =====
-- Records of dead letters, pkg/queue/dlq.go. A time is 0 where it is zero; UTC changes no instant.
pub mod Kept
use chartly.Prelude.{
  ℕ, zero, ◌+◌, Bool, true, false, not, ◌&&◌, ◌||◌, Option, none, some, List, [], ◌∷◌, ◌++◌, map,
  ◌⊎◌, inl, inr, if◌then◌else◌, ltb, leb, ◌==◌, length, take, all,
}
use chartly.Prelude.Int.{ℤ, pos, negsuc}
use chartly.Text.{Text, lit, is_empty, trim_space, to_lower}
use chartly.Text.Sort.{sort}
use chartly.Dict.{Dict, lookup}
use chartly.Idempotency.Encode.{hex_encode, format_int}
use chartly.Queue.{
  Envelope, normalize_envelope, validate, header_key, bad_key, or_empty, is_negative,
  normalize_pairs, part, stable_envelope_hash,
}
use chartly.Queue as Queue

pub record DlqRecord : Type 0 where
  pub record_id : Text
  pub queue : Text
  pub envelope : Envelope
  pub final_attempt : ℤ
  pub reason : Text
  pub first_seen_at : ℕ
  pub last_seen_at : ℕ
  pub dead_lettered_at : ℕ
  pub extra : Option (Dict Text)
  pub record_hash : Text

pub data Error : Type 0 where
  bad_envelope : Queue.Error → Error
  queue_required queue_too_long record_id_too_long final_attempt_negative : Error
  dead_lettered_at_required reason_too_long : Error
  too_many_extra extra_key_invalid extra_value_too_long record_hash_invalid : Error

abbrev pub max_reason_len : ℕ
max_reason_len = 512

abbrev pub max_extra_fields : ℕ
max_extra_fields = 32

abbrev pub max_record_id_len : ℕ
max_record_id_len = 128

abbrev pub max_queue_name_len : ℕ
max_queue_name_len = 128

-- `s[:n]` where the text is longer.
abbrev pub cut : ℕ → Text → Text
cut n s = if ltb n (length s) then take n s else s

abbrev pub no_less : ℤ → ℤ
no_less (pos n) = pos n
no_less (negsuc n) = pos 0

unfoldable pub is_hex_lower : Text → Bool
is_hex_lower [] = true
is_hex_lower (c ∷ s) =
    let rest = is_hex_lower s in ((leb b'0' c && leb c b'9') || (leb b'a' c && leb c b'f')) && rest

-- The loop over the entries; keys are bounded as those of headers.
unfoldable pub check_extra : Dict Text → Option Error
unfolding bad_key trim_space to_lower
check_extra [] = none
check_extra ((k, v) ∷ m) =
    if bad_key (header_key k)
    then some extra_key_invalid
    else if ltb 256 (length (trim_space v))
    then some extra_value_too_long
    else check_extra m

unfoldable pub check_extras : Option (Dict Text) → Option Error
unfolding check_extra
check_extras none = none
check_extras (some m) =
    if ltb max_extra_fields (length m) then some too_many_extra else check_extra m

abbrev pub first_error : Option Error → Option Error → Option Error
first_error (some e) next = some e
first_error none next = next

abbrev pub envelope_error : Option Queue.Error → Option Error
envelope_error none = none
envelope_error (some e) = some (bad_envelope e)

unfoldable pub check_hash : Text → Option Error
unfolding is_hex_lower
check_hash s =
    if not (is_empty s) && (not (length s == 64) || not (is_hex_lower s))
    then some record_hash_invalid
    else none

-- The checks before the envelope.
unfoldable pub check_fields : DlqRecord → Option Error
unfolding trim_space
check_fields r =
    if is_empty (trim_space r.queue)
    then some queue_required
    else if ltb max_queue_name_len (length r.queue)
    then some queue_too_long
    else if not (is_empty r.record_id) && ltb max_record_id_len (length r.record_id)
    then some record_id_too_long
    else if is_negative r.final_attempt
    then some final_attempt_negative
    else if r.dead_lettered_at == 0
    then some dead_lettered_at_required
    else if ltb max_reason_len (length r.reason)
    then some reason_too_long
    else none

unfoldable pub validate_record : DlqRecord → Option Error
unfolding check_fields check_extras check_hash validate
validate_record r = first_error (check_fields r) (
    first_error (envelope_error (validate r.envelope))
      (first_error (check_extras r.extra) (check_hash r.record_hash)))

-- The record with its normal envelope, before it is validated.
unfoldable pub settled : DlqRecord → Envelope → DlqRecord
unfolding trim_space to_lower normalize_pairs
settled r env = record r {
  record_id = cut max_record_id_len (trim_space r.record_id);
  queue = trim_space r.queue;
  envelope = env;
  final_attempt = no_less r.final_attempt;
  reason = cut max_reason_len (trim_space r.reason);
  extra = normalize_pairs max_extra_fields r.extra;
  record_hash = trim_space (to_lower r.record_hash);
}

abbrev pub unless_invalid : Option Error → DlqRecord → Error ⊎ DlqRecord
unless_invalid (some e) r = inl e
unless_invalid none r = inr r

abbrev pub with_envelope {ℓ} :
    {A : Type ℓ} → Queue.Error ⊎ Envelope → (Envelope → Error ⊎ A) → Error ⊎ A
with_envelope (inl e) go = inl (bad_envelope e)
with_envelope (inr env) go = go env

unfoldable pub normalize_dlq_record : DlqRecord → Error ⊎ DlqRecord
unfolding settled validate_record normalize_envelope
normalize_dlq_record r =
    with_envelope (normalize_envelope r.envelope)
      (λ env. unless_invalid (validate_record (settled r env)) (settled r env))

-- `clock` is read where `now` is zero.
unfoldable pub new_dlq_record : Text → Envelope → ℤ → Text → ℕ → ℕ → Error ⊎ DlqRecord
unfolding normalize_dlq_record
new_dlq_record q env final_attempt reason now clock = with_envelope (normalize_envelope env) (λ n.
    normalize_dlq_record (record {
      record_id = [];
      queue = q;
      envelope = n;
      final_attempt = final_attempt;
      reason = reason;
      first_seen_at = 0;
      last_seen_at = 0;
      dead_lettered_at = if now == 0 then clock else now;
      extra = none;
      record_hash = [];
    }))

unfoldable pub extra_parts : Dict Text → List Text → Text
unfolding lookup
extra_parts m [] = []
extra_parts m (k ∷ ks) = part (lit "x:" ++ k) ++ part (or_empty (lookup k m)) ++ extra_parts m ks

abbrev pub all_extra : Option (Dict Text) → Text
all_extra none = []
all_extra (some m) = extra_parts m (sort (map (λ p. p.0) m))

-- `format_time` is Format with the layout RFC3339Nano, `sha256` is SHA-256, from bytes to bytes.
module _ (format_time : ℕ → Text) (sha256 : List ℕ → List ℕ) where
  abbrev pub seen_part : Text → ℕ → Text
  seen_part name t = if t == 0 then [] else part name ++ part (format_time t)

  unfoldable pub record_input : DlqRecord → Text → Text
  unfolding extra_parts format_int sort
  record_input r envelope_hash =
      part r.queue
      ++ part r.envelope.id
      ++ part r.envelope.type
      ++ part r.envelope.tenant
      ++ part r.envelope.dedup_key
      ++ part (format_int r.final_attempt)
      ++ part r.reason
      ++ part (format_time r.dead_lettered_at)
      ++ seen_part (lit "first_seen_at") r.first_seen_at
      ++ seen_part (lit "last_seen_at") r.last_seen_at
      ++ all_extra r.extra
      ++ part (lit "envhash")
      ++ part envelope_hash

  abbrev pub hash_record : DlqRecord → Queue.Error ⊎ Text → Error ⊎ Text
  hash_record r (inl e) = inl (bad_envelope e)
  hash_record r (inr h) = inr (hex_encode (sha256 (record_input r h)))

  abbrev pub hash_normal : Error ⊎ DlqRecord → Error ⊎ Text
  hash_normal (inl e) = inl e
  hash_normal (inr r) = hash_record r (stable_envelope_hash sha256 r.envelope)

  unfoldable pub stable_hash : DlqRecord → Error ⊎ Text
  unfolding normalize_dlq_record record_input stable_envelope_hash hex_encode
  stable_hash r = hash_normal (normalize_dlq_record r)
