-- ===== src/Queue/Dlq/Kept.antt =====
-- What NormalizeDLQRecord of pkg/queue/dlq.go keeps, and what it refuses.
use chartly.Prelude.{
  ℕ, zero, suc, ◌≤◌, ◌<◌, ◌≡◌, refl, sym, ap, ◌∙◌, true, false, not, ◌&&◌, Option, none, some, List,
  [], ◌∷◌, ◌⊎◌, inl, inr, arith, ltb, ◌==◌, length, length-take, take, le→ltb, All, Bool-cases,
}
use chartly.Prelude.Int.{ℤ, pos, negsuc}
use chartly.Text.{Text, is_empty, is_space, trim_left, trim_cons, trim_right, trim_space, to_lower}
use chartly.Text.Laws.{trim_space_idem}
use chartly.Dict.{Dict}
use chartly.Queue.{
  Envelope, normalize_envelope, check_envelope, validate, bad_key, is_negative, equals, declared,
  normalize_pairs,
}
use chartly.Queue.Normalized.{
  IsHeader, AreHeaders, IsNormal, normalize_envelope-IsNormal, normalize_pairs-AreHeaders,
}
use chartly.Queue.Dlq.{
  DlqRecord, cut, no_less, is_hex_lower, check_extra, check_extras, check_hash, check_fields,
  validate_record, settled, normalize_dlq_record,
}

length-trim_left : (s : Text) → length (trim_left s) ≤ length s
unfolding trim_left
length-trim_left [] = omega arith
length-trim_left (c ∷ s) = ground (arith, length-trim_left s)

length-trim_cons : (c : ℕ) (t : Text) → length (trim_cons c t) ≤ suc (length t)
unfolding is_space
length-trim_cons c [] = ground arith
length-trim_cons c (d ∷ t) = omega arith

length-trim_right : (s : Text) → length (trim_right s) ≤ length s
unfolding trim_right
length-trim_right [] = omega arith
length-trim_right (c ∷ s) = omega (arith, length-trim_right s, length-trim_cons c (trim_right s))

length-trim_space : (s : Text) → length (trim_space s) ≤ length s
unfolding trim_space
length-trim_space s = omega (arith, length-trim_right (trim_left s), length-trim_left s)

-- A normal envelope is normal already: its validation finds nothing.
declared_exact : (n : ℤ) (xs : List ℕ) → (length xs ≡ 0) ⊎ (n ≡ pos (length xs)) → declared n xs ≡ n
declared_exact n [] h = ground arith
declared_exact (pos zero) (x ∷ xs) (inl h) = absurd (omega (arith, h))
declared_exact (pos (suc n)) (x ∷ xs) h = refl
declared_exact (negsuc n) (x ∷ xs) h = refl
declared_exact (pos zero) (x ∷ xs) (inr h) = absurd (ground (arith, h))

sizes_agree :
    (n : ℤ) (len : ℕ) → (len ≡ 0) ⊎ (n ≡ pos len) → (ltb 0 len && not (equals n len)) ≡ false
sizes_agree n len (inl h) = ground (arith, h)
sizes_agree (pos m) len (inr h) = let same : m ≡ len = ground (arith, h) in ground (arith, same)
sizes_agree (negsuc m) len (inr h) = absurd (ground (arith, h))

dedup_short : (d : Text) → length d ≤ 256 → (not (is_empty d) && ltb 256 (length d)) ≡ false
dedup_short [] h = refl
dedup_short (c ∷ d) h = le→ltb (length (c ∷ d)) 256 h

validate-none : (env : Envelope) → IsNormal env → validate env ≡ none
unfolding validate normalize_envelope check_envelope
validate-none env n = rw n.natural_attempt (
    rw n.natural_size (
      rw n.trimmed_type (
        rw n.some_type (
          rw (le→ltb (length env.type) 128 n.short_type) (
            rw
              (dedup_short (trim_space env.dedup_key)
                (omega (arith, length-trim_space env.dedup_key, n.short_dedup)))
              (rw (declared_exact env.payload_bytes env.payload n.exact) (
                rw n.bounded
                  (rw (sizes_agree env.payload_bytes (length env.payload) n.exact) refl))))))))

check_extra-none : (m : Dict Text) → All IsHeader m → check_extra m ≡ none
unfolding check_extra bad_key
check_extra-none [] h = refl
check_extra-none ((k, v) ∷ m) h =
    let key = h.0.plain_key in
    let shorter : length (trim_space v) ≤ 256 =
      omega (arith, length-trim_space v, h.0.short_value) in
    rw key (
      rw (h.0.some_key, le→ltb (length k) 64 h.0.short_key)
        (rw (le→ltb (length (trim_space v)) 256 shorter) (check_extra-none m h.1)))

check_extras-none : (m : Option (Dict Text)) → AreHeaders 32 m → check_extras m ≡ none
unfolding check_extras
check_extras-none none h = refl
check_extras-none (some m) h = rw (le→ltb (length m) 32 h.few) (check_extra-none m h.headers)

length-cut : (n : ℕ) (s : Text) → length (cut n s) ≤ n
length-cut n s = elim (Bool-cases (ltb n (length s))) [
  | inl long ↦ rw long (omega (arith, length-take n s))
  | inr short ↦ rw short (not_longer n (length s) short)
]
  where
    not_longer : (n m : ℕ) → ltb n m ≡ false → m ≤ n
    not_longer n m h = ground arith

id_short : (s : Text) → length s ≤ 128 → (not (is_empty s) && ltb 128 (length s)) ≡ false
id_short [] h = refl
id_short (c ∷ s) h = le→ltb (length (c ∷ s)) 128 h

no_less-natural : (n : ℤ) → is_negative (no_less n) ≡ false
no_less-natural (pos n) = refl
no_less-natural (negsuc n) = refl

check_fields-none :
    (r : DlqRecord) (n : Envelope)
    → is_empty (trim_space r.queue) ≡ false
    → length (trim_space r.queue) ≤ 128
    → 0 < r.dead_lettered_at
    → check_fields (settled r n) ≡ none
unfolding check_fields settled
check_fields-none r n named short dated =
    let dated_test : (r.dead_lettered_at == 0) ≡ false = ground arith in
    rw (trim_space_idem r.queue) (
      rw named (
        rw (le→ltb (length (trim_space r.queue)) 128 short) (
          rw (id_short (cut 128 (trim_space r.record_id)) (length-cut 128 (trim_space r.record_id)))
            (rw (no_less-natural r.final_attempt) (
              rw dated_test (
                rw
                  (le→ltb (length (cut 512 (trim_space r.reason))) 512
                    (length-cut 512 (trim_space r.reason)))
                  refl))))))

check_hash-none :
    (s : Text) → (length s ≡ 0) ⊎ ((length s ≡ 64) × (is_hex_lower s ≡ true)) → check_hash s ≡ none
unfolding check_hash
check_hash-none [] h = refl
check_hash-none (c ∷ s) h = ground (arith, h)

settled_returned :
    (r : DlqRecord) (n : Envelope)
    → normalize_envelope r.envelope ≡ inr n
    → is_empty (trim_space r.queue) ≡ false
    → length (trim_space r.queue) ≤ 128
    → 0 < r.dead_lettered_at
    → check_hash (trim_space (to_lower r.record_hash)) ≡ none
    → normalize_dlq_record r ≡ inr (settled r n)
unfolding normalize_dlq_record validate_record
settled_returned r n normal named short dated hash =
    let fields = check_fields-none r n named short dated in
    let envelope = validate-none n (normalize_envelope-IsNormal r.envelope n normal) in
    let extras =
      check_extras-none (normalize_pairs 32 r.extra)
        (normalize_pairs-AreHeaders 32 r.extra (omega arith)) in
    let valid : validate_record (settled r n) ≡ none =
      unfold settled in rw fields (rw envelope (rw extras hash)) in
    rw normal (rw valid refl)

-- A negative attempt is set to 0.
abbrev pub natural : ℤ → ℤ
natural (pos n) = pos n
natural (negsuc n) = pos 0

take_all : (n : ℕ) (s : Text) → length s ≤ n → take n s ≡ s
take_all zero [] h = refl
take_all zero (c ∷ s) h = absurd (omega arith)
take_all (suc n) [] h = refl
take_all (suc n) (c ∷ s) h = ap (λ t. c ∷ t) (take_all n s (omega arith))

cut-take : (n : ℕ) (s : Text) → cut n s ≡ take n s
cut-take n s = elim (Bool-cases (ltb n (length s))) [
  | inl long ↦ rw long refl
  | inr short ↦ rw short (sym (take_all n s (ground arith)))
]

no_less_lem : (n : ℤ) → no_less n ≡ natural n
no_less_lem (pos n) = refl
no_less_lem (negsuc n) = refl

settled_lem :
    (r : DlqRecord) (n : Envelope)
    → settled r n ≡ record {
      record_id = take 128 (trim_space r.record_id);
      queue = trim_space r.queue;
      envelope = n;
      final_attempt = natural r.final_attempt;
      reason = take 512 (trim_space r.reason);
      first_seen_at = r.first_seen_at;
      last_seen_at = r.last_seen_at;
      dead_lettered_at = r.dead_lettered_at;
      extra = normalize_pairs 32 r.extra;
      record_hash = trim_space (to_lower r.record_hash);
    }
unfolding settled
settled_lem r n =
    rw (cut-take 128 (trim_space r.record_id))
      (rw (cut-take 512 (trim_space r.reason)) (rw (no_less_lem r.final_attempt) refl))

-- NormalizeDLQRecord refuses nothing that it can mend: where the envelope normalises, the trimmed queue
-- has 1 to 128 bytes, the time of the dead letter is set and the trimmed, lower-case hash is empty or
-- 64 hexadecimal digits, it returns this record: the normal envelope, the trimmed queue, the first 128
-- bytes of the trimmed identifier, the first 512 of the trimmed reason, the attempt or 0 for a negative
-- one, the three times as they were, the extra fields normalised as 32 headers, and the trimmed,
-- lower-case hash. The second normalisation of the envelope, in Validate, finds nothing.
pub normalize_dlq_record-settled :
    (r : DlqRecord) (n : Envelope)
    → normalize_envelope r.envelope ≡ inr n
    → is_empty (trim_space r.queue) ≡ false
    → length (trim_space r.queue) ≤ 128
    → 0 < r.dead_lettered_at
    → (length (trim_space (to_lower r.record_hash)) ≡ 0)
      ⊎ ((length (trim_space (to_lower r.record_hash)) ≡ 64)
          × (is_hex_lower (trim_space (to_lower r.record_hash)) ≡ true))
    → normalize_dlq_record r
      ≡ inr (record {
        record_id = take 128 (trim_space r.record_id);
        queue = trim_space r.queue;
        envelope = n;
        final_attempt = natural r.final_attempt;
        reason = take 512 (trim_space r.reason);
        first_seen_at = r.first_seen_at;
        last_seen_at = r.last_seen_at;
        dead_lettered_at = r.dead_lettered_at;
        extra = normalize_pairs 32 r.extra;
        record_hash = trim_space (to_lower r.record_hash);
      })
normalize_dlq_record-settled r n normal named short dated hash =
    settled_returned r n normal named short dated (check_hash-none _ hash)
    ∙ ap inr (settled_lem r n)
