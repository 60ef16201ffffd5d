-- ===== src/Config/Wins.antt =====
-- What stands in a merged configuration, pkg/config/merge.go.
use chartly.Prelude.{
  ℕ, suc, ◌≡◌, refl, sym, ap, ◌∙◌, Option, none, some, List, [], ◌∷◌, ◌++◌, arith, if◌then◌else◌,
  leb, Bool-cases, inl, inr,
}
use mathlib.Core.Path.{subst}
use chartly.Text.{Text, lit, text_eq}
use chartly.Text.Laws.{text_eq_iff}
use chartly.Config.{
  Fields, end, field, Items, Value, null, scalar, obj, arr, array_replace, MergeOptions, Limits,
  default_merge_options, Progress, lookup_field, set_field, join_path, Merged, merge_arrays,
  replace_value, guarded, fields_of, when_obj, when_found, merge_arr, merge_value, merge_fields,
  merge_map, begin, as_fields, merge_layers, merge_many,
}

-- The value at a path of keys.
abbrev pub get_in : Option Value → (Value → Option Value) → Option Value
get_in none go = none
get_in (some v) go = go v

abbrev pub get : List Text → Value → Option Value
get [] v = some v
get (k ∷ ks) (obj m) = get_in (lookup_field k m) (get ks)
get (k ∷ ks) _ = none

-- A value that is no map.
abbrev pub IsLeaf : Value → Type 0
IsLeaf (obj m) = ⊥
IsLeaf _ = Unit

-- Each key stands once, at every depth.
unfoldable mutual
  pub IsTidy : Value → Type 0
  IsTidy (obj m) = AreTidy m
  IsTidy (arr xs) = Unit
  IsTidy null = Unit
  IsTidy (scalar t v) = Unit

  pub AreTidy : Fields → Type 0
  AreTidy end = Unit
  AreTidy (field k v m) = (lookup_field k m ≡ none) × IsTidy v × AreTidy m

lookup_field-set_field :
    (k j : Text) (v : Value) (m : Fields)
    → lookup_field j (set_field k v m) ≡ (if text_eq k j then some v else lookup_field j m)
unfolding set_field
lookup_field-set_field k j v end = refl
lookup_field-set_field k j v (field i w m) =
    ground
      (arith, lookup_field-set_field k j v m, text_eq_iff i k, text_eq_iff k j, text_eq_iff i j)

module _ (o : Limits) where
  guarded-All {κ} :
      (P : Value → Type κ) (what path : Text) (depth : ℕ) (src : Value) (s : Progress)
      (go : Progress → Merged)
      → P src
      → ((t : Progress) → P (go t).0)
      → P (guarded o what path depth src s go).0
  unfolding guarded
  guarded-All P what path depth src s go here there = elim (Bool-cases (leb s.budget 0)) [
    | inl spent ↦ rw spent here
    | inr left ↦ rw left (elim (Bool-cases (leb o.max_depth depth)) [
      | inl deep ↦ rw deep here
      | inr flat ↦ rw flat (there _)
    ])
  ]

  replace_value-eq :
      (path : Text) (dst src : Value) (s : Progress) → (replace_value o path dst src s).0 ≡ src
  unfolding replace_value
  replace_value-eq path dst src s = ground arith

  merge_fields-other :
      (src out : Fields) (path : Text) (depth : ℕ) (s : Progress) (k : Text)
      → lookup_field k src ≡ none
      → lookup_field k (merge_fields o out src path depth s).0 ≡ lookup_field k out
  unfolding merge_fields
  merge_fields-other end out path depth s k h = refl
  merge_fields-other (field j sv rest) out path depth s k h = elim (Bool-cases (text_eq j k)) [
    | inl same ↦ absurd (ground (arith, h, same))
    | inr other ↦
        merge_fields-other rest _ path depth _ k (ground (arith, h, other))
        ∙ lookup_field-set_field j k _ out
        ∙ rw other refl
  ]

  merge_arr-eq :
      (dst : Value) (ys : Items) (path : Text) (s : Progress)
      → o.array_policy ≡ array_replace
      → (merge_arr o dst ys path s).0 ≡ arr ys
  unfolding merge_arrays
  merge_arr-eq (arr xs) ys path s rep = rw rep refl
  merge_arr-eq null ys path s rep = replace_value-eq path null (arr ys) s
  merge_arr-eq (scalar t v) ys path s rep = replace_value-eq path (scalar t v) (arr ys) s
  merge_arr-eq (obj m) ys path s rep = replace_value-eq path (obj m) (arr ys) s

  when_obj-All {κ} :
      (P : Value → Type κ) (dst : Value) (go : Fields → Merged) (other : Merged)
      → ((m : Fields) → P (go m).0)
      → P other.0
      → P (when_obj dst go other).0
  when_obj-All P (obj m) go other h h' = h m
  when_obj-All P (arr xs) go other h h' = h'
  when_obj-All P null go other h h' = h'
  when_obj-All P (scalar t v) go other h h' = h'

  when_found-All {κ} :
      (P : Value → Type κ) (found : Option Value) (go : Value → Merged) (other : Merged)
      → ((v : Value) → P (go v).0)
      → P other.0
      → P (when_found found go other).0
  when_found-All P none go other h h' = h'
  when_found-All P (some v) go other h h' = h v

  module _ (rep : o.array_policy ≡ array_replace) (v : Value) (leaf : IsLeaf v) where
    abbrev Has : List Text → Value → Type 0
    Has p x = get p x ≡ some v

    mutual
      unfolding merge_value merge_fields IsTidy AreTidy

      merge_value-Has :
          (src dst : Value) (path : Text) (depth : ℕ) (s : Progress) (p : List Text)
          → IsTidy src
          → Has p src
          → Has p (merge_value o dst src path depth s).0
      merge_value-Has null dst path depth s p tidy h =
          guarded-All (Has p) (lit "value replaced") path depth null s
            (λ t. replace_value o path dst null t) h
            (λ t. subst (Has p) (sym (replace_value-eq path dst null t)) h)
      merge_value-Has (scalar n x) dst path depth s p tidy h =
          guarded-All (Has p) (lit "value replaced") path depth (scalar n x) s
            (λ t. replace_value o path dst (scalar n x) t) h
            (λ t. subst (Has p) (sym (replace_value-eq path dst (scalar n x) t)) h)
      merge_value-Has (arr ys) dst path depth s p tidy h =
          guarded-All (Has p) (lit "value replaced") path depth (arr ys) s
            (λ t. merge_arr o dst ys path t) h
            (λ t. subst (Has p) (sym (merge_arr-eq dst ys path t rep)) h)
      merge_value-Has (obj sm) dst path depth s [] tidy h =
          absurd (subst IsLeaf (let e : v ≡ obj sm = cc in e) leaf)
      merge_value-Has (obj sm) dst path depth s (k ∷ ks) tidy h =
          let inner = λ (t : Progress) (dm : Fields).
            guarded o (lit "subtree replaced") path depth (obj sm) t
              (λ t'. fields_of (merge_fields o dm sm path (suc depth) t')) in
          guarded-All (Has (k ∷ ks)) (lit "value replaced") path depth (obj sm) s
            (λ t. when_obj dst (inner t) (replace_value o path dst (obj sm) t)) h
            (λ t.
              when_obj-All (Has (k ∷ ks)) dst (inner t) (replace_value o path dst (obj sm) t)
                (λ dm.
                  guarded-All (Has (k ∷ ks)) (lit "subtree replaced") path depth (obj sm) t
                    (λ t'. fields_of (merge_fields o dm sm path (suc depth) t')) h
                    (λ t'. merge_fields-Has sm dm path (suc depth) t' k ks tidy h))
                (subst (Has (k ∷ ks)) (sym (replace_value-eq path dst (obj sm) t)) h))

      merge_fields-Has :
          (src out : Fields) (path : Text) (depth : ℕ) (s : Progress) (k : Text) (ks : List Text)
          → AreTidy src
          → Has (k ∷ ks) (obj src)
          → Has (k ∷ ks) (obj (merge_fields o out src path depth s).0)
      merge_fields-Has end out path depth s k ks tidy h = absurd (ground (arith, h))
      merge_fields-Has (field j sv rest) out path depth s k ks tidy h =
          let merged =
            when_found (lookup_field j out) (λ dv. merge_value o dv sv (join_path path j) depth s)
              (sv, s) in
          let out' = set_field j merged.0 out in
          elim (Bool-cases (text_eq j k)) [
            | inl same ↦
                let here : Has ks sv = ground (arith, h, same) in
                let gone : lookup_field k rest ≡ none =
                  ap (λ x. lookup_field x rest) (sym ((text_eq_iff j k).0 same)) ∙ tidy.0 in
                let there =
                  when_found-All (Has ks) (lookup_field j out)
                    (λ dv. merge_value o dv sv (join_path path j) depth s) (sv, s)
                    (λ dv. merge_value-Has sv dv (join_path path j) depth s ks tidy.1 here) here in
                let placed : lookup_field k out' ≡ some merged.0 =
                  subst
                    (λ b. lookup_field k out' ≡ (if b then some merged.0 else lookup_field k out))
                    same (lookup_field-set_field j k merged.0 out) in
                ap (λ x. get_in x (get ks))
                  (merge_fields-other rest out' path depth merged.1 k gone ∙ placed)
                ∙ there
            | inr other ↦
                merge_fields-Has rest out' path depth merged.1 k ks tidy.2
                  (ground (arith, h, other))
          ]

    merge_map-Has :
        (dst src : Fields) (path : Text) (depth : ℕ) (s : Progress) (p : List Text)
        → AreTidy src
        → Has p (obj src)
        → Has p (merge_map o dst src path depth s).0
    unfolding merge_map
    merge_map-Has dst src path depth s [] tidy h =
        absurd (subst IsLeaf (let e : v ≡ obj src = cc in e) leaf)
    merge_map-Has dst src path depth s (k ∷ ks) tidy h =
        guarded-All (Has (k ∷ ks)) (lit "subtree replaced") path depth (obj src) s
          (λ t. fields_of (merge_fields o dst src path (suc depth) t)) h
          (λ t. merge_fields-Has src dst path (suc depth) t k ks tidy h)

    as_fields-Has :
        (w : Value) (k : Text) (ks : List Text) → Has (k ∷ ks) w → Has (k ∷ ks) (obj (as_fields w))
    as_fields-Has (obj m) k ks h = h
    as_fields-Has null k ks h = cc
    as_fields-Has (scalar t x) k ks h = cc
    as_fields-Has (arr xs) k ks h = cc

    merge_layers-Has :
        (layers : List (Option Fields)) (out last : Fields) (s : Progress) (k : Text)
        (ks : List Text)
        → AreTidy last
        → Has (k ∷ ks) (obj last)
        → Has (k ∷ ks) (obj (merge_layers o out (layers ++ some last ∷ []) s).0)
    unfolding merge_layers
    merge_layers-Has [] out last s k ks tidy h =
        as_fields-Has (merge_map o out last (lit "$") 0 s).0 k ks
          (merge_map-Has out last (lit "$") 0 s (k ∷ ks) tidy h)
    merge_layers-Has (none ∷ layers) out last s k ks tidy h =
        merge_layers-Has layers out last s k ks tidy h
    merge_layers-Has (some m ∷ layers) out last s k ks tidy h =
        merge_layers-Has layers _ last _ k ks tidy h

-- The last layer of MergeMany wins, whatever the limits on depth and nodes cut off: where arrays are
-- replaced, which is the default, every value of the last layer that is no map stands in the result, at
-- the same path of keys.
pub last_layer_wins :
    (layers : List (Option Fields)) (last : Fields) (opts : MergeOptions) (k : Text)
    (ks : List Text) (v : Value)
    → (default_merge_options opts).array_policy ≡ array_replace
    → AreTidy last
    → IsLeaf v
    → get (k ∷ ks) (obj last) ≡ some v
    → get (k ∷ ks) (obj (merge_many (layers ++ some last ∷ []) opts).0) ≡ some v
unfolding merge_many
last_layer_wins layers last opts k ks v rep tidy leaf h =
    let o = default_merge_options opts in
    merge_layers-Has o rep v leaf layers end last (begin o) k ks tidy h
