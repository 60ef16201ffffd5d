-- ===== src/Idempotency/Encode.antt =====
-- The deterministic encoder of pkg/idempotency/keys.go, with what it uses of strconv, encoding/hex,
-- encoding/json and sort.
use chartly.Prelude.{
  ℕ, zero, suc, ◌+◌, ◌-◌, ◌/◌, ◌%◌, Bool, ◌||◌, Option, none, some, List, [], ◌∷◌, ◌++◌, ltb, ◌==◌,
  if◌then◌else◌,
}
use chartly.Prelude.Int.{ℤ, pos, negsuc}
use chartly.Text.{Text, lit, trim_space, to_lower}
use chartly.Text.Sort.{sort}
use chartly.Dict.{Dict, lookup}
use chartly.Idempotency.{Result, ok, err, json_error, ◌>>=◌}

-- The dynamic types that the encoder tells apart. A float is kept as the text that strconv prints
-- for it, a `json.Number` as its text, and any other value as what encoding/json makes of it.
mutual
  pub data Fields : Type 0 where
    end : Fields
    field : Text → Value → Fields → Fields

  pub data Items : Type 0 where
    nil : Items
    cons : Value → Items → Items

  pub data Value : Type 0 where
    null : Value
    str number float : Text → Value
    bytes : List ℕ → Value
    bool : Bool → Value
    uint : ℕ → Value
    int : ℤ → Value
    string_map : Dict Text → Value
    obj : Fields → Value
    arr : Items → Value
    other : Option Text → Value

unfoldable pub hex_digit : ℕ → ℕ
hex_digit n = if ltb n 10 then b'0' + n else b'a' + (n - 10)

-- hex.EncodeToString
unfoldable pub hex_encode : List ℕ → Text
hex_encode [] = []
hex_encode (b ∷ bs) = hex_digit (b / 16) ∷ hex_digit (b % 16) ∷ hex_encode bs

-- The decimal digits; 20 digits hold every 64-bit number.
unfoldable pub decimal : ℕ → ℕ → Text
decimal zero n = []
decimal (suc f) n =
    let rest = decimal f (n / 10) in
    if ltb n 10 then (b'0' + n) ∷ [] else rest ++ (b'0' + n % 10) ∷ []

unfoldable pub format_uint : ℕ → Text
unfolding decimal
format_uint n = decimal 20 n

unfoldable pub format_int : ℤ → Text
unfolding format_uint
format_int (pos n) = format_uint n
format_int (negsuc n) = b'-' ∷ format_uint (suc n)

-- How encoding/json writes a byte of a string, with HTML escapes.
unfoldable pub json_byte : ℕ → Text
unfolding hex_digit
json_byte c =
    if (c == 34) || (c == 92)
    then 92 ∷ c ∷ []
    else if c == 8
    then 92 ∷ b'b' ∷ []
    else if c == 9
    then 92 ∷ b't' ∷ []
    else if c == 10
    then 92 ∷ b'n' ∷ []
    else if c == 12
    then 92 ∷ b'f' ∷ []
    else if c == 13
    then 92 ∷ b'r' ∷ []
    else if ltb c 32 || ((c == b'<') || ((c == b'>') || (c == b'&')))
    then 92 ∷ b'u' ∷ b'0' ∷ b'0' ∷ hex_digit (c / 16) ∷ hex_digit (c % 16) ∷ []
    else c ∷ []

json_body : Text → Text
json_body [] = []
json_body (c ∷ s) = json_byte c ++ json_body s

-- json.Marshal of a string.
unfoldable pub json_string : Text → Text
unfolding json_byte json_body
json_string s = 34 ∷ (json_body s ++ 34 ∷ [])

-- How both map cases and `BuildKeyFromMap` normalise a key.
abbrev pub lower_key : Text → Text
lower_key k = to_lower (trim_space k)

abbrev pub keys_of {ℓ} : {A : Type ℓ} → Dict A → List Text
keys_of [] = []
keys_of ((k, v) ∷ m) = lower_key k ∷ keys_of m

abbrev pub drop_empty : List Text → List Text
drop_empty [] = []
drop_empty ([] ∷ ks) = drop_empty ks
drop_empty ((c ∷ k) ∷ ks) = (c ∷ k) ∷ drop_empty ks

abbrev pub join_comma : List Text → Text
join_comma [] = []
join_comma (w ∷ []) = w
join_comma (w ∷ v ∷ ws) = w ++ b',' ∷ join_comma (v ∷ ws)

-- The encoding of `x[k]`; a key that the map lacks gives nil.
abbrev enc_at : Dict (Result Text) → Text → Result Text
enc_at es k = elim (lookup k es) [ none ↦ ok (lit "null") | some r ↦ r ]

enc_pairs : Dict (Result Text) → List Text → Result (List Text)
enc_pairs es [] = ok []
enc_pairs es (k ∷ ks) = do
  v ← enc_at es k
  rest ← enc_pairs es ks
  ok ((json_string k ++ b':' ∷ v) ∷ rest)

abbrev or_empty : Option Text → Text
or_empty none = []
or_empty (some s) = s

string_pairs : Dict Text → List Text → List Text
string_pairs m [] = []
string_pairs m (k ∷ ks) =
    (json_string k ++ b':' ∷ json_string (or_empty (lookup k m))) ∷ string_pairs m ks

abbrev pub braces : List Text → Text
braces ws = b'{' ∷ (join_comma ws ++ b'}' ∷ [])

abbrev null_if_empty : Text → Text
null_if_empty [] = lit "null"
null_if_empty (c ∷ s) = c ∷ s

unfoldable mutual
  unfolding json_string hex_encode format_int format_uint sort enc_pairs string_pairs lookup

  pub enc_any : Value → Result Text
  enc_any null = ok (lit "null")
  enc_any (bool b) = ok (if b then lit "true" else lit "false")
  enc_any (str s) = ok (json_string s)
  enc_any (bytes bs) = ok (34 ∷ (hex_encode bs ++ 34 ∷ []))
  enc_any (int n) = ok (format_int n)
  enc_any (uint n) = ok (format_uint n)
  enc_any (float s) = ok s
  enc_any (number s) = ok (null_if_empty (trim_space s))
  enc_any (arr xs) = enc_items xs >>= λ ws. ok (b'[' ∷ (join_comma ws ++ b']' ∷ []))
  enc_any (obj fs) =
      let es = enc_fields fs in
      enc_pairs es (drop_empty (sort (keys_of es))) >>= λ ws. ok (braces ws)
  enc_any (string_map m) = ok (braces (string_pairs m (sort (keys_of m))))
  enc_any (other none) = err json_error
  enc_any (other (some s)) = ok s

  pub enc_items : Items → Result (List Text)
  enc_items nil = ok []
  enc_items (cons x xs) = enc_any x >>= λ w. enc_items xs >>= λ ws. ok (w ∷ ws)

  pub enc_fields : Fields → Dict (Result Text)
  enc_fields end = []
  enc_fields (field k v fs) = (k, enc_any v) ∷ enc_fields fs

abbrev pub items : List Value → Items
items [] = nil
items (v ∷ vs) = cons v (items vs)

-- encodeDeterministic
unfoldable pub encode_deterministic : List Value → Result Text
unfolding enc_any
encode_deterministic parts = enc_any (arr (items parts))
