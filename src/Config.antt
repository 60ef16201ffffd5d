-- ===== src/Config.antt =====
-- Merging of configuration trees, pkg/config/merge.go. The fields of MergeOptions, which the source has
-- in comments, are read as declared. A map is a list in the order of its sorted keys, in which mergeMap
-- visits it; a map that is nil is left out, but as a layer of MergeMany.
pub mod Wins
mod Tests
use chartly.Prelude.{
  ℕ, zero, suc, ◌+◌, ◌-◌, ◌≡◌, Bool, true, false, not, ◌&&◌, ◌||◌, Option, none, some, List, [],
  ◌∷◌, ◌++◌, if◌then◌else◌, ltb, leb, length,
}
use Prim.Native.Nat.{min}
use chartly.Prelude.Int.{ℤ, or_default}
use chartly.Text.{Text, lit, is_empty, text_eq, trim_space}
use chartly.Idempotency.Encode.{format_uint}

-- A scalar is the name of its Go type and its value.
mutual
  pub data Fields : Type 0 where
    end : Fields
    field : Text → Value → Fields → Fields

  pub data Items : Type 0 where
    nil : Items
    cons : Value → Items → Items

  pub data Value : Type 0 where
    null : Value
    scalar : Text → Text → Value
    obj : Fields → Value
    arr : Items → Value

pub data ArrayPolicy : Type 0 where
  array_replace array_concat : ArrayPolicy

-- `none` is the empty policy.
pub record MergeOptions : Type 0 where
  pub max_depth : ℤ
  pub max_nodes : ℤ
  pub max_warnings : ℤ
  pub array_policy : Option ArrayPolicy
  pub max_concat_len : ℤ

-- The options with their defaults.
pub record Limits : Type 0 where
  pub max_depth : ℕ
  pub max_nodes : ℕ
  pub max_warnings : ℕ
  pub array_policy : ArrayPolicy
  pub max_concat_len : ℕ

abbrev pub or_replace : Option ArrayPolicy → ArrayPolicy
or_replace none = array_replace
or_replace (some a) = a

unfoldable pub default_merge_options : MergeOptions → Limits
default_merge_options o = record {
  max_depth = or_default o.max_depth 32;
  max_nodes = or_default o.max_nodes 250000;
  max_warnings = or_default o.max_warnings 64;
  array_policy = or_replace o.array_policy;
  max_concat_len = or_default o.max_concat_len 50000;
}

pub record MergeWarning : Type 0 where
  pub code : Text
  pub path : Text
  pub msg : Text

pub record MergeReport : Type 0 where
  pub warnings : List MergeWarning
  pub nodes : ℕ
  pub depth_hit : ℕ

-- The node budget and the report so far.
pub record Progress : Type 0 where
  pub budget : ℕ
  pub warnings : List MergeWarning
  pub depth_hit : ℕ

unfoldable pub warn : Limits → Text → Text → Text → Progress → Progress
unfolding trim_space
warn o code path msg s =
    if ltb 0 o.max_warnings && leb o.max_warnings (length s.warnings) then s else record s {
      warnings =
          s.warnings
          ++ record { code = trim_space code; path = trim_space path; msg = trim_space msg } ∷ [];
    }

abbrev pub lookup_field : Text → Fields → Option Value
lookup_field k end = none
lookup_field k (field j v m) = let rest = lookup_field k m in if text_eq j k then some v else rest

unfoldable pub set_field : Text → Value → Fields → Fields
unfolding text_eq
set_field k v end = field k v end
set_field k v (field j w m) =
    let rest = set_field k v m in if text_eq j k then field j v m else field j w rest

abbrev pub append_items : Items → Items → Items
append_items nil ys = ys
append_items (cons x xs) ys = cons x (append_items xs ys)

abbrev pub take_items : ℕ → Items → Items
take_items zero xs = nil
take_items (suc n) nil = nil
take_items (suc n) (cons x xs) = cons x (take_items n xs)

abbrev pub count_items : Items → ℕ
count_items nil = 0
count_items (cons x xs) = suc (count_items xs)

unfoldable pub join_path : Text → Text → Text
unfolding text_eq
join_path base k =
    if is_empty base || text_eq base (lit "$") then lit "$." ++ k else base ++ b'.' ∷ k

-- `%T`
abbrev pub type_name : Value → Text
type_name null = lit "<nil>"
type_name (scalar t v) = t
type_name (obj m) = lit "map[string]interface {}"
type_name (arr xs) = lit "[]interface {}"

abbrev pub Merged : Type 0
Merged = Value × Progress

unfoldable pub concat_arrays : Limits → Text → Items → Items → Progress → Merged
unfolding warn
concat_arrays o path xs ys s =
    let all_of = take_items o.max_concat_len (append_items xs ys) in
    if ltb o.max_concat_len (count_items xs + count_items ys)
      || leb o.max_concat_len (count_items xs)
    then (
      arr all_of,
      warn o (lit "array.concat_truncated") path (lit "array concat truncated to max length") s,
    )
    else (arr all_of, s)

unfoldable pub merge_arrays : Limits → ArrayPolicy → Text → Items → Items → Progress → Merged
unfolding concat_arrays
merge_arrays o array_concat path xs ys s = concat_arrays o path xs ys s
merge_arrays o array_replace path xs ys s = (arr ys, s)

unfoldable pub replace_value : Limits → Text → Value → Value → Progress → Merged
unfolding warn text_eq
replace_value o path dst src s = if text_eq (type_name dst) (type_name src) then (src, s) else (
  src,
  warn o (lit "type.replace") path
      (lit "type changed " ++ type_name dst ++ lit " -> " ++ type_name src ++ lit " (replaced)") s,
)

-- The two guards at the head of mergeMap and mergeValue; `what` ends the depth warning.
unfoldable pub guarded : Limits → Text → Text → ℕ → Value → Progress → (Progress → Merged) → Merged
unfolding warn format_uint
guarded o what path depth src s go =
    if leb s.budget 0
    then (
      src,
      warn o (lit "limits.nodes") path
          (lit "max nodes exceeded (" ++ format_uint o.max_nodes ++ lit ")") s,
    )
    else let spent = record s { budget = s.budget - 1 } in
      if leb o.max_depth depth
      then (
        src,
        warn o (lit "limits.depth") path
            (lit "max depth exceeded (" ++ format_uint o.max_depth ++ lit "); " ++ what)
            (record spent { depth_hit = suc s.depth_hit }),
      )
      else go spent

abbrev pub fields_of : Fields × Progress → Merged
fields_of (m, s) = (obj m, s)

abbrev pub put_field :
    Text → Fields → Merged → (Fields → Progress → Fields × Progress) → Fields × Progress
put_field k out (v, s) next = next (set_field k v out) s

-- Where the old value is a map.
abbrev pub when_obj : Value → (Fields → Merged) → Merged → Merged
when_obj (obj m) go other = go m
when_obj _ go other = other

-- Where the old value is there.
abbrev pub when_found : Option Value → (Value → Merged) → Merged → Merged
when_found none go other = other
when_found (some v) go other = go v

module _ (o : Limits) where
  abbrev pub merge_arr : Value → Items → Text → Progress → Merged
  merge_arr (arr xs) ys path s = merge_arrays o o.array_policy path xs ys s
  merge_arr dst ys path s = replace_value o path dst (arr ys) s

  unfoldable mutual
    unfolding guarded replace_value merge_arrays set_field join_path

    pub merge_value : Value → Value → Text → ℕ → Progress → Merged
    merge_value dst (obj sm) path depth s =
        guarded o (lit "value replaced") path depth (obj sm) s (λ s'.
          when_obj dst
            (λ dm.
              guarded o (lit "subtree replaced") path depth (obj sm) s'
                (λ t. fields_of (merge_fields dm sm path (suc depth) t)))
            (replace_value o path dst (obj sm) s'))
    merge_value dst (arr ys) path depth s =
        guarded o (lit "value replaced") path depth (arr ys) s (λ s'. merge_arr dst ys path s')
    merge_value dst null path depth s =
        guarded o (lit "value replaced") path depth null s (λ s'. replace_value o path dst null s')
    merge_value dst (scalar t v) path depth s =
        guarded o (lit "value replaced") path depth (scalar t v) s
          (λ s'. replace_value o path dst (scalar t v) s')

    -- The loop over the keys of the source.
    pub merge_fields : Fields → Fields → Text → ℕ → Progress → Fields × Progress
    merge_fields out end path depth s = (out, s)
    merge_fields out (field k sv rest) path depth s =
        put_field k out
          (when_found (lookup_field k out) (λ dv. merge_value dv sv (join_path path k) depth s)
            (sv, s))
          (λ out' s'. merge_fields out' rest path depth s')

  unfoldable pub merge_map : Fields → Fields → Text → ℕ → Progress → Merged
  unfolding merge_fields guarded
  merge_map dst src path depth s =
      guarded o (lit "subtree replaced") path depth (obj src) s
        (λ t. fields_of (merge_fields dst src path (suc depth) t))

abbrev pub begin : Limits → Progress
begin o = record { budget = o.max_nodes; warnings = []; depth_hit = 0 }

abbrev pub report : Limits → Progress → MergeReport
report o s = record {
  warnings = s.warnings;
  nodes = o.max_nodes - s.budget;
  depth_hit = s.depth_hit;
}

abbrev pub reported : Limits → Merged → Value × MergeReport
reported o (v, s) = (v, report o s)

unfoldable pub merge : Fields → Fields → MergeOptions → Value × MergeReport
unfolding merge_map default_merge_options
merge dst src opts =
    let o = default_merge_options opts in reported o (merge_map o dst src (lit "$") 0 (begin o))

-- The fields of a merged map, which is one.
abbrev pub as_fields : Value → Fields
as_fields (obj m) = m
as_fields _ = end

abbrev pub next_layer : Merged → (Fields → Progress → Fields × Progress) → Fields × Progress
next_layer (v, s) next = next (as_fields v) s

unfoldable pub merge_layers : Limits → Fields → List (Option Fields) → Progress → Fields × Progress
unfolding merge_map
merge_layers o out [] s = (out, s)
merge_layers o out (none ∷ layers) s = merge_layers o out layers s
merge_layers o out (some layer ∷ layers) s =
    next_layer (merge_map o out layer (lit "$") 0 s) (λ out' s'. merge_layers o out' layers s')

unfoldable pub merge_many : List (Option Fields) → MergeOptions → Fields × MergeReport
unfolding merge_layers default_merge_options
merge_many layers opts =
    let o = default_merge_options opts in
    let (out, s) = merge_layers o end layers (begin o) in (out, report o s)
