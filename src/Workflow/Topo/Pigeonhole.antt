-- ===== src/Workflow/Topo/Pigeonhole.antt =====
-- The length of a list of keys against the size of their map.
use chartly.Prelude.{
  ℕ, ◌+◌, ◌≤◌, ◌<◌, ◌≡◌, refl, true, none, List, [], ◌∷◌, arith, if◌then◌else◌, length,
}
use native.Mathlib.Decide.{dec_lt}
use chartly.Text.{Text, text_eq}
use chartly.Text.Laws.{text_eq_iff, text_eq_refl}
use chartly.Text.Sort.{count}
use chartly.Dict.{Dict, lookup, is_some, IsUnique}

without : Text → List Text → List Text
without k [] = []
without k (x ∷ xs) = let rest = without k xs in if text_eq x k then rest else x ∷ rest

length-without : (k : Text) (xs : List Text) → length xs ≡ length (without k xs) + count k xs
unfolding without count
length-without k [] = omega arith
length-without k (x ∷ xs) = ground (arith, length-without k xs)

count-without :
    (k j : Text) (xs : List Text) → count j (without k xs) ≡ (if text_eq k j then 0 else count j xs)
unfolding without count
count-without k j [] = ground arith
count-without k j (x ∷ xs) =
    ground (arith, count-without k j xs, text_eq_iff x k, text_eq_iff x j, text_eq_iff k j)

-- 1 on the keys of a map.
abbrev pub one_if_key {ℓ} : {V : Type ℓ} → Dict V → Text → ℕ
one_if_key m k = if is_some (lookup k m) then 1 else 0

module _ {ℓ} {V : Type ℓ} where
  rest_keys :
      (id : Text) (v : V) (m : Dict V) (xs : List Text)
      → lookup id m ≡ none
      → ((k : Text) → count k xs ≤ one_if_key ((id, v) ∷ m) k)
      → (k : Text) → count k (without id xs) ≤ one_if_key m k
  unfolding lookup
  rest_keys id v m xs u h k = ground (arith, h k, count-without id k xs, u, text_eq_iff id k)

  pub length-at_most :
      (m : Dict V) (xs : List Text)
      → IsUnique m
      → ((k : Text) → count k xs ≤ one_if_key m k)
      → length xs ≤ length m
  unfolding lookup count
  length-at_most [] [] u h = omega arith
  length-at_most [] (x ∷ xs) u h = absurd (ground (arith, h x, text_eq_refl x))
  length-at_most ((id, v) ∷ m) xs u h =
      let ih = length-at_most m (without id xs) u.1 (rest_keys id v m xs u.0 h) in
      ground (arith, ih, length-without id xs, h id, text_eq_refl id)

  -- A list of different keys that is as long as the map has every key.
  pub every_key :
      (m : Dict V) (xs : List Text)
      → IsUnique m
      → ((k : Text) → count k xs ≤ one_if_key m k)
      → length xs ≡ length m
      → (k : Text) → count k xs ≡ one_if_key m k
  unfolding lookup
  every_key [] xs u h e k = omega (arith, h k)
  every_key ((id, v) ∷ m) xs u h e k =
      let less = rest_keys id v m xs u.0 h in
      let short = length-at_most m (without id xs) u.1 less in
      let ih =
        every_key m (without id xs) u.1 less
          (ground (arith, short, e, length-without id xs, h id, text_eq_refl id)) k in
      ground (
        arith,
        ih,
        short,
        e,
        length-without id xs,
        h id,
        text_eq_refl id,
        count-without id k xs,
        text_eq_iff id k,
        u.0,
      )

  -- A shorter one misses a key.
  pub missing_key :
      (m : Dict V) (xs : List Text)
      → IsUnique m
      → ((k : Text) → count k xs ≤ one_if_key m k)
      → length xs < length m
      → (k : Text) × (is_some (lookup k m) ≡ true) × (count k xs ≡ 0)
  unfolding lookup
  missing_key [] xs u h e = absurd (omega arith)
  missing_key ((id, v) ∷ m) xs u h e = elim (dec_lt 0 (count id xs)) [
    | no p ↦ (id, rw (text_eq_refl id) refl, omega arith)
    | yes p ↦
        let less = rest_keys id v m xs u.0 h in
        let (k, key, none_there) =
          missing_key m (without id xs) u.1 less (ground (arith, e, length-without id xs, p)) in
        (
          k,
          ground (arith, key),
          ground (arith, key, none_there, count-without id k xs, text_eq_iff id k, u.0),
        )
  ]
