-- ===== src/Cache/Tests.antt =====
-- Concrete cache keys and admissions.
use chartly.Prelude.{◌*◌, ◌^◌, ◌≡◌, refl, none, some, List, [], ◌∷◌, inr}
use chartly.Prelude.Int.{pos}
use chartly.Text.{Text, lit, text_eq, trim_space, contains_byte}
use chartly.Ledger.{norm}
use chartly.Cache.{default_policy, admit, key, normalize_parts}
use chartly.Cache.Keys.{key_separates}

abbrev parts : List Text
parts = lit " photos  2024 " ∷ lit " " ∷ []

body_key :
    key (lit "acme ") (lit "object_body") parts ≡ inr (lit "chartly:acme:object_body:photos 2024")
unfolding key trim_space
body_key = refl

plain_key :
    key (lit "acme") (lit "object_body") (lit "photos 2024" ∷ [])
    ≡ inr (lit "chartly:acme:object_body:photos 2024")
unfolding key trim_space
plain_key = refl

key_separates_example :
    (norm (lit "acme ") ≡ norm (lit "acme"))
    × (norm (lit "object_body") ≡ norm (lit "object_body"))
    × (normalize_parts parts ≡ normalize_parts (lit "photos 2024" ∷ []))
unfolding norm trim_space contains_byte
key_separates_example =
    key_separates (lit "acme ") (lit "acme") (lit "object_body") (lit "object_body") parts
      (lit "photos 2024" ∷ []) (lit "chartly:acme:object_body:photos 2024") refl refl refl refl
      body_key plain_key

-- Two tenants with one key.
shared_key : key (lit "acme:list") (lit "list") [] ≡ key (lit "acme") (lit "list") (lit "list" ∷ [])
unfolding key trim_space
shared_key = refl

small_body : admit default_policy (lit "object_body") (pos 1000) ≡ some (30 * 10 ^ 9)
unfolding admit default_policy trim_space text_eq
small_body = refl

large_body : admit default_policy (lit "object_body") (pos (5 * 1024 * 1024)) ≡ none
unfolding admit default_policy trim_space text_eq
large_body = refl

unknown_kind : admit default_policy (lit "thumb") (pos 1) ≡ none
unfolding admit default_policy trim_space text_eq
unknown_kind = refl
