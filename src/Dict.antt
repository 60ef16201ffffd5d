-- ===== src/Dict.antt =====
-- Go's maps with string keys, as association lists in which a key stands once.
use chartly.Prelude.{
  suc, ◌≤◌, ◌≡◌, refl, Bool, true, false, Option, none, some, List, [], ◌∷◌, ◌++◌, arith,
  if◌then◌else◌, length,
}
use chartly.Text.{Text, text_eq}
use chartly.Text.Laws.{text_eq_iff}

abbrev pub Dict {ℓ} : Type ℓ → Type ℓ
Dict V = List (Text × V)

abbrev pub is_some {ℓ} : {A : Type ℓ} → Option A → Bool
is_some none = false
is_some (some a) = true

abbrev pub only {ℓ} : {A : Type ℓ} → (A → Bool) → Option A → Option A
only p none = none
only p (some a) = if p a then some a else none

module _ {ℓ} {V : Type ℓ} where
  -- m[k]
  unfoldable pub lookup : Text → Dict V → Option V
  lookup key [] = none
  lookup key ((k, v) ∷ rest) = if text_eq k key then some v else lookup key rest

  -- m[k] = v
  unfoldable pub insert : Text → V → Dict V → Dict V
  insert key new [] = (key, new) ∷ []
  insert key new ((k, old) ∷ rest) =
      if text_eq k key then (key, new) ∷ rest else (k, old) ∷ insert key new rest

  -- delete(m, k)
  unfoldable pub remove : Text → Dict V → Dict V
  remove k [] = []
  remove k ((j, w) ∷ m) = let rest = remove k m in if text_eq j k then rest else (j, w) ∷ rest

  -- A loop over the map that deletes the entries whose value fails the test.
  unfoldable pub keep : (V → Bool) → Dict V → Dict V
  keep p [] = []
  keep p ((j, w) ∷ m) = let rest = keep p m in if p w then (j, w) ∷ rest else rest

  -- A key stands once.
  abbrev pub IsUnique : Dict V → Type ℓ
  IsUnique [] = Unit
  IsUnique ((k, v) ∷ m) = (lookup k m ≡ none) × IsUnique m

  pub lookup-insert :
      (key other : Text) (new : V) (d : Dict V)
      → lookup other (insert key new d) ≡ (if text_eq key other then some new else lookup other d)
  unfolding insert lookup
  lookup-insert key other new [] = refl
  lookup-insert key other new ((k, old) ∷ d) = ground (
    arith,
    lookup-insert key other new d,
    text_eq_iff k key,
    text_eq_iff key other,
    text_eq_iff k other,
  )

  pub lookup-remove :
      (k j : Text) (m : Dict V) → lookup j (remove k m) ≡ (if text_eq k j then none else lookup j m)
  unfolding lookup remove
  lookup-remove k j [] = ground arith
  lookup-remove k j ((i, w) ∷ m) =
      ground (arith, text_eq_iff k j, text_eq_iff i k, text_eq_iff i j, lookup-remove k j m)

  lookup-keep-none :
      (p : V → Bool) (j : Text) (m : Dict V) → lookup j m ≡ none → lookup j (keep p m) ≡ none
  unfolding lookup keep
  lookup-keep-none p j [] h = refl
  lookup-keep-none p j ((i, w) ∷ m) h = ground (arith, lookup-keep-none p j m)

  pub lookup-keep :
      (p : V → Bool) (j : Text) (m : Dict V)
      → IsUnique m
      → lookup j (keep p m) ≡ only p (lookup j m)
  unfolding lookup keep
  lookup-keep p j [] u = refl
  lookup-keep p j ((i, w) ∷ m) u =
      ground (arith, text_eq_iff i j, lookup-keep-none p j m, lookup-keep p j m)

  pub insert-IsUnique : (k : Text) (v : V) (m : Dict V) → IsUnique m → IsUnique (insert k v m)
  unfolding insert lookup
  insert-IsUnique k v [] u = (refl, tt)
  insert-IsUnique k v ((i, w) ∷ m) u =
      ground (arith, text_eq_iff i k, text_eq_iff k i, lookup-insert k i v m, insert-IsUnique k v m)

  pub remove-IsUnique : (k : Text) (m : Dict V) → IsUnique m → IsUnique (remove k m)
  unfolding remove
  remove-IsUnique k [] u = tt
  remove-IsUnique k ((i, w) ∷ m) u = ground (arith, lookup-remove k i m, remove-IsUnique k m)

  pub keep-IsUnique : (p : V → Bool) (m : Dict V) → IsUnique m → IsUnique (keep p m)
  unfolding keep
  keep-IsUnique p [] u = tt
  keep-IsUnique p ((i, w) ∷ m) u = ground (arith, lookup-keep-none p i m, keep-IsUnique p m)

  pub length-insert :
      (k : Text) (v : V) (m : Dict V)
      → length (insert k v m) ≡ (if is_some (lookup k m) then length m else suc (length m))
  unfolding insert lookup
  length-insert k v [] = refl
  length-insert k v ((i, w) ∷ m) = ground (arith, length-insert k v m)

  pub length-remove : (k : Text) (m : Dict V) → length (remove k m) ≤ length m
  unfolding remove
  length-remove k [] = omega arith
  length-remove k ((i, w) ∷ m) = ground (arith, length-remove k m)

  pub length-keep : (p : V → Bool) (m : Dict V) → length (keep p m) ≤ length m
  unfolding keep
  length-keep p [] = omega arith
  length-keep p ((i, w) ∷ m) = ground (arith, length-keep p m)

  -- The values of the entries.
  abbrev pub AllValues {κ} : (Text → V → Type κ) → Dict V → Type κ
  AllValues P [] = Unit
  AllValues P ((k, v) ∷ m) = P k v × AllValues P m

  -- A new key goes to the end.
  pub insert_new :
      (k : Text) (v : V) (m : Dict V) → lookup k m ≡ none → insert k v m ≡ m ++ (k, v) ∷ []
  unfolding insert lookup
  insert_new k v [] h = refl
  insert_new k v ((i, w) ∷ m) h = ground (arith, insert_new k v m)
