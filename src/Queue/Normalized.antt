-- ===== src/Queue/Normalized.antt =====
-- What NormalizeEnvelope of pkg/queue/queue.go returns.
use chartly.Prelude.{
  ℕ, zero, suc, ◌*◌, ◌≤◌, ◌<◌, ◌≡◌, refl, ap, ◌∙◌, Bool, true, false, not, ◌&&◌, Option, none, some,
  List, [], ◌∷◌, map, ◌⊎◌, inl, inr, arith, if◌then◌else◌, ltb, leb, length, length-take, leb→gt,
  All, Bool-cases,
}
use mathlib.Core.Path.{subst}
use chartly.Prelude.Int.{ℤ, pos, negsuc}
use chartly.Text.{Text, text_eq, is_empty, trim_space, to_lower}
use chartly.Text.Laws.{trim_space_idem, to_lower_idem, trim_space-to_lower}
use chartly.Text.Sort.{sort}
use chartly.Dict.{Dict, lookup, insert, IsUnique, insert-IsUnique}
use chartly.Queue.{
  Envelope, type_required, type_too_long, dedup_too_long, oversize, size_mismatch, header_key,
  header_value, bad_key, or_empty, clean_headers, none_if_empty, normalize_pairs, normalize_headers,
  is_negative, above, equals, declared, trimmed, check_envelope, normalize_envelope,
}

-- A header within its bounds: its key is trimmed and lower-case.
pub record IsHeader (kv : Text × Text) : Type 0 where
  pub some_key : is_empty kv.0 ≡ false
  pub short_key : length kv.0 ≤ 64
  pub plain_key : header_key kv.0 ≡ kv.0
  pub short_value : length kv.1 ≤ 256

pub record IsHeaders (most : ℕ) (m : Dict Text) : Type 0 where
  pub some_header : 0 < length m
  pub few : length m ≤ most
  pub one_each : IsUnique m
  pub headers : All IsHeader m

abbrev pub AreHeaders : ℕ → Option (Dict Text) → Type 0
AreHeaders most none = Unit
AreHeaders most (some m) = IsHeaders most m

pub record IsNormal (env : Envelope) : Type 0 where
  pub some_type : is_empty env.type ≡ false
  pub short_type : length env.type ≤ 128
  pub trimmed_type : trim_space env.type ≡ env.type
  pub trimmed_tenant : trim_space env.tenant ≡ env.tenant
  pub short_dedup : length env.dedup_key ≤ 256
  pub natural_attempt : is_negative env.attempt ≡ false
  pub natural_size : is_negative env.payload_bytes ≡ false
  pub bounded : above env.payload_bytes (4 * 1024 * 1024) ≡ false
  pub exact : (length env.payload ≡ 0) ⊎ (env.payload_bytes ≡ pos (length env.payload))
  pub header_bounds : AreHeaders 64 env.headers

header_key_idem : (k : Text) → header_key (header_key k) ≡ header_key k
header_key_idem k =
    ap to_lower (trim_space-to_lower (trim_space k) ∙ ap to_lower (trim_space_idem k))
    ∙ to_lower_idem (trim_space k)

ltb-false : (n : ℕ) → ltb 256 n ≡ false → n ≤ 256
ltb-false n h = ground arith

header_value_short : (v : Text) → length (header_value v) ≤ 256
unfolding header_value
header_value_short v = elim (Bool-cases (ltb 256 (length (trim_space v)))) [
  | inl long ↦ rw long (omega (arith, length-take 256 (trim_space v)))
  | inr short ↦ rw short (ltb-false (length (trim_space v)) short)
]

header_key-IsHeader :
    (k v : Text) → bad_key (header_key k) ≡ false → IsHeader (header_key k, header_value v)
unfolding bad_key
header_key-IsHeader k v good = record {
  some_key = ground (arith, good);
  short_key = ground (arith, good);
  plain_key = header_key_idem k;
  short_value = header_value_short v;
}

insert-All {κ} :
    (P : Text × Text → Type κ) (k v : Text) (m : Dict Text)
    → P (k, v)
    → All P m
    → All P (insert k v m)
unfolding insert
insert-All P k v [] p ps = (p, tt)
insert-All P k v ((x, y) ∷ m) p ps = elim (Bool-cases (text_eq x k)) [
  | inl same ↦ rw same (p, ps.1)
  | inr other ↦ rw other (ps.0, insert-All P k v m p ps.1)
]

length-insert_le : (k v : Text) (m : Dict Text) → length (insert k v m) ≤ suc (length m)
unfolding insert
length-insert_le k v [] = omega arith
length-insert_le k v ((x, y) ∷ m) = ground (arith, length-insert_le k v m)

-- The headers that are clean so far, before the bound is reached.
record IsClean (most : ℕ) (m : Dict Text) : Type 0 where
  few : length m < most
  one_each : IsUnique m
  headers : All IsHeader m

abbrev Bounded : ℕ → Dict Text → Type 0
Bounded most m = (length m ≤ most) × IsUnique m × All IsHeader m

clean_headers-Bounded :
    (most : ℕ) (m : Dict Text) (ks : List Text) (clean : Dict Text)
    → IsClean most clean
    → Bounded most (clean_headers most m ks clean)
unfolding clean_headers
clean_headers-Bounded most m [] clean c = (omega (arith, c.few), c.one_each, c.headers)
clean_headers-Bounded most m (k ∷ ks) clean c = elim (Bool-cases (bad_key (header_key k))) [
  | inl bad ↦ rw bad (clean_headers-Bounded most m ks clean c)
  | inr good ↦
      let v = header_value (or_empty (lookup k m)) in
      let next = insert (header_key k) v clean in
      let size : length next ≤ suc (length clean) = length-insert_le (header_key k) v clean in
      let unique = insert-IsUnique (header_key k) v clean c.one_each in
      let headers =
        insert-All IsHeader (header_key k) v clean
          (header_key-IsHeader k (or_empty (lookup k m)) good) c.headers in
      rw good (elim (Bool-cases (leb most (length next))) [
        | inl full ↦ rw full (omega (arith, size, c.few), unique, headers)
        | inr room ↦ rw room (
            clean_headers-Bounded most m ks next (record {
              few = leb→gt most (length next) room;
              one_each = unique;
              headers = headers;
            }))
      ])
]

none_if_empty-AreHeaders :
    (most : ℕ) (m : Dict Text) → Bounded most m → AreHeaders most (none_if_empty m)
none_if_empty-AreHeaders most [] b = tt
none_if_empty-AreHeaders most (h ∷ hs) b = record {
  some_header = omega arith;
  few = b.0;
  one_each = b.1;
  headers = b.2;
}

pub normalize_pairs-AreHeaders :
    (most : ℕ) (m : Option (Dict Text)) → 0 < most → AreHeaders most (normalize_pairs most m)
unfolding normalize_pairs
normalize_pairs-AreHeaders most none h = tt
normalize_pairs-AreHeaders most (some m) h =
    none_if_empty-AreHeaders most (clean_headers most m (sort (map (λ p. p.0) m)) []) (
      clean_headers-Bounded most m (sort (map (λ p. p.0) m)) []
        (record { few = h; one_each = tt; headers = tt }))

checked :
    (a b c d e : Bool) (env n : Envelope)
    → (if a
        then inl type_required
        else if b
        then inl type_too_long
        else if c
        then inl dedup_too_long
        else if d
        then inl oversize
        else if e
        then inl size_mismatch
        else inr env)
      ≡ inr n
    → (a ≡ false) × (b ≡ false) × (c ≡ false) × (d ≡ false) × (e ≡ false) × (env ≡ n)
checked true b c d e env n h = cc
checked false true c d e env n h = cc
checked false false true d e env n h = cc
checked false false false true e env n h = cc
checked false false false false true env n h = cc
checked false false false false false env n h = (refl, refl, refl, refl, refl, cc)

short_of : (n : ℕ) → ltb 128 n ≡ false → n ≤ 128
short_of n h = ground arith

short_or_empty : (d : Text) → (not (is_empty d) && ltb 256 (length d)) ≡ false → length d ≤ 256
short_or_empty [] h = omega arith
short_or_empty (c ∷ d) h = ltb-false (length (c ∷ d)) h

exact_size :
    (n : ℤ) (len : ℕ) → (ltb 0 len && not (equals n len)) ≡ false → (len ≡ 0) ⊎ (n ≡ pos len)
exact_size n zero h = inl refl
exact_size (pos m) (suc l) h = inr (ap pos {y = suc l} (ground (arith, h)))
exact_size (negsuc m) (suc l) h = absurd (ground (arith, h))

declared_natural :
    (n : ℤ) (xs : List ℕ) → is_negative n ≡ false → is_negative (declared n xs) ≡ false
declared_natural (pos n) xs h = ground arith
declared_natural (negsuc n) xs h = cc

check_envelope-IsNormal :
    (env n : Envelope)
    → is_negative env.attempt ≡ false
    → is_negative env.payload_bytes ≡ false
    → check_envelope (trimmed env) ≡ inr n
    → IsNormal n
unfolding check_envelope normalize_headers
check_envelope-IsNormal env n attempt size h =
    let (a, b, c, d, e, same) = checked _ _ _ _ _ _ _ h in
    subst IsNormal same (record {
      some_type = a;
      short_type = short_of (length (trim_space env.type)) b;
      trimmed_type = trim_space_idem env.type;
      trimmed_tenant = trim_space_idem env.tenant;
      short_dedup = short_or_empty (trim_space env.dedup_key) c;
      natural_attempt = attempt;
      natural_size = declared_natural env.payload_bytes env.payload size;
      bounded = d;
      exact = exact_size (declared env.payload_bytes env.payload) (length env.payload) e;
      header_bounds = normalize_pairs-AreHeaders 64 env.headers (omega arith);
    })

-- An envelope that NormalizeEnvelope returns keeps to the bounds: a trimmed type of 1 to 128 bytes, a
-- trimmed tenant, a deduplication key of at most 256, no negative count, a payload of at most 4 MiB whose
-- size is declared exactly where it is there, and, where it has headers, 1 to 64 of them, each key once,
-- trimmed, lower-case and of 1 to 64 bytes, each value of at most 256.
pub normalize_envelope-IsNormal : (env n : Envelope) → normalize_envelope env ≡ inr n → IsNormal n
unfolding normalize_envelope
normalize_envelope-IsNormal env n h = elim (Bool-cases (is_negative env.attempt)) [
  | inl bad ↦ absurd (ground (arith, h, bad))
  | inr attempt ↦ elim (Bool-cases (is_negative env.payload_bytes)) [
    | inl bad ↦ absurd (ground (arith, h, attempt, bad))
    | inr size ↦ check_envelope-IsNormal env n attempt size (ground (arith, h, attempt, size))
  ]
]
