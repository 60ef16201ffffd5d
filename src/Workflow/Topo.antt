-- ===== src/Workflow/Topo.antt =====
-- Kahn's algorithm of `TopoSort`, and the checks and the builder that use it.
pub mod Degree
pub mod Release
pub mod Loop
pub mod Pigeonhole
pub mod Sorted
pub mod Build
use chartly.Prelude.{
  ℕ, zero, suc, ◌+◌, ◌≡◌, Bool, true, false, ◌==◌, Option, none, some, List, [], ◌∷◌, ◌++◌, map,
  ◌⊎◌, inl, inr, if◌then◌else◌, length,
}
use chartly.Prelude.Int.{ℤ, pos, int_suc, int_pred, is_zero}
use mathlib.Core.List.{reverse}
use chartly.Text.{Text, lit, text_eq, is_empty, trim_space}
use chartly.Text.Sort.{sort}
use chartly.Dict.{Dict, lookup, insert, is_some}
use chartly.Workflow.{
  Node, Edge, Dag, Error, edge_invalid, node_missing, cycle_detected, out_of_fuel, new_dag,
  add_node, add_edge,
}

-- m[k] where a missing key reads as the zero value.
abbrev pub or_zero {ℓ} : {V : Type ℓ} → V → Option V → V
or_zero z none = z
or_zero z (some v) = v

abbrev pub Adjacency : Type 0
Adjacency = Dict (List Text)

-- for id := range d.Nodes { adj[id] = nil; indeg[id] = 0 }
unfoldable pub start {ℓ} : {V : Type ℓ} → V → Dict Node → Dict V
start v [] = []
start v ((id, n) ∷ nodes) = (id, v) ∷ start v nodes

unfoldable pub add_adjacent : List Edge → Adjacency → Adjacency
add_adjacent [] adj = adj
add_adjacent (e ∷ es) adj =
    add_adjacent es (insert e.from (or_zero [] (lookup e.from adj) ++ e.to ∷ []) adj)

unfoldable pub add_indegrees : List Edge → Dict ℤ → Dict ℤ
add_indegrees [] indeg = indeg
add_indegrees (e ∷ es) indeg =
    add_indegrees es (insert e.to (int_suc (or_zero (pos 0) (lookup e.to indeg))) indeg)

unfoldable pub sort_each : Adjacency → Adjacency
sort_each [] = []
sort_each ((id, ts) ∷ adj) = (id, sort ts) ∷ sort_each adj

-- The keys with in-degree 0.
unfoldable pub zero_keys : Dict ℤ → List Text
zero_keys [] = []
zero_keys ((id, n) ∷ indeg) = let rest = zero_keys indeg in if is_zero n then id ∷ rest else rest

-- The inner loop, over the targets of one node.
unfoldable pub release : List Text → Dict ℤ → List Text → Dict ℤ × List Text
release [] indeg zeros = (indeg, zeros)
release (t ∷ ts) indeg zeros =
    let n = int_pred (or_zero (pos 0) (lookup t indeg)) in
    release ts (insert t n indeg) (if is_zero n then zeros ++ t ∷ [] else zeros)

-- The outer loop: what it appends to `out`, or `none` where the fuel runs out.
unfoldable pub kahn : ℕ → Adjacency → Dict ℤ → List Text → Option (List Text)
unfolding release
kahn fuel adj indeg [] = some []
kahn zero adj indeg (id ∷ zeros) = none
kahn (suc fuel) adj indeg (id ∷ zeros) =
    let (indeg', zeros') = release (or_zero [] (lookup id adj)) indeg zeros in
    elim (kahn fuel adj indeg' (sort zeros')) [ none ↦ none | some out ↦ some (id ∷ out) ]

-- len(out) != len(d.Nodes)
abbrev pub finish : Dict Node → Option (List Text) → Error ⊎ List Text
finish nodes none = inl out_of_fuel
finish nodes (some out) = if length out == length nodes then inr out else inl cycle_detected

unfoldable pub topo_sort : Dag → Error ⊎ List Text
unfolding start add_adjacent add_indegrees sort_each zero_keys kahn
topo_sort d =
    let adj = sort_each (add_adjacent d.edges (start [] d.nodes)) in
    let indeg = add_indegrees d.edges (start (pos 0) d.nodes) in
    let zeros = sort (zero_keys indeg) in
    finish d.nodes (kahn (length zeros + length d.edges) adj indeg zeros)

unfoldable pub reverse_topo_sort : Dag → Error ⊎ List Text
unfolding topo_sort
reverse_topo_sort d = elim (topo_sort d) [ inl e ↦ inl e | inr order ↦ inr (reverse order) ]

unfoldable pub check_edges : Dict Node → List Edge → Option Error
check_edges nodes [] = none
check_edges nodes (e ∷ es) =
    let rest = check_edges nodes es in
    if is_some (lookup e.from nodes)
    then if is_some (lookup e.to nodes)
      then if text_eq e.from e.to then some (edge_invalid (lit "self edge")) else rest
      else some (node_missing e.to)
    else some (node_missing e.from)

unfoldable pub validate : Dag → Option Error
unfolding check_edges topo_sort
validate d = elim (check_edges d.nodes d.edges) [
  | some e ↦ some e
  | none ↦ elim (topo_sort d) [ inl e ↦ some e | inr order ↦ none ]
]

pub record PlanStep : Type 0 where
  pub id : Text
  pub kind : Text
  pub after : List Text
  pub params : Dict Text

pub record JobPlan : Type 0 where
  pub job_type : Text
  pub source_id : Text
  pub steps : List PlanStep

unfoldable pub add_steps : List PlanStep → Dag → Error ⊎ Dag
add_steps [] d = inr d
add_steps (s ∷ steps) d =
    let id = trim_space s.id in
    let kind = trim_space s.kind in
    let (d', error) = add_node d (record { id = id; kind = kind; params = s.params }) in
    let rest = add_steps steps d' in
    if is_empty id
    then inl (edge_invalid (lit "empty step id"))
    else if is_empty kind
    then inl (edge_invalid (lit "step kind required"))
    else elim error [ some e ↦ inl e | none ↦ rest ]

unfoldable pub add_dependencies : Text → List Text → Dag → Error ⊎ Dag
add_dependencies to [] d = inr d
add_dependencies to (dep ∷ deps) d =
    let from = trim_space dep in
    let (d', error) = add_edge d from to in
    let rest = add_dependencies to deps d' in
    if is_empty from
    then inl (edge_invalid (lit "empty dependency"))
    else elim error [ some e ↦ inl e | none ↦ rest ]

unfoldable pub add_plan_edges : List PlanStep → Dag → Error ⊎ Dag
unfolding add_dependencies
add_plan_edges [] d = inr d
add_plan_edges (s ∷ steps) d = elim (add_dependencies (trim_space s.id) s.after d) [
  | inl e ↦ inl e
  | inr d' ↦ add_plan_edges steps d'
]

unfoldable pub build_from_plan : JobPlan → Error ⊎ Dag
unfolding add_steps add_plan_edges validate
build_from_plan p = elim (add_steps p.steps new_dag) [
  | inl e ↦ inl e
  | inr d ↦ elim (add_plan_edges p.steps d) [
    | inl e ↦ inl e
    | inr d' ↦ elim (validate d') [ some e ↦ inl e | none ↦ inr d' ]
  ]
]
