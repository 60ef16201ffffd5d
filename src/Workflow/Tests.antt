-- ===== src/Workflow/Tests.antt =====
-- Concrete plans and graphs.
use chartly.Prelude.{◌≡◌, refl, true, some, Bool-cases, List, [], ◌∷◌, map, arith, ◌⊎◌, inl, inr}
use mathlib.Core.Path.{subst}
use chartly.Text.{Text, lit, text_eq, text_lt, trim_space}
use chartly.Text.Laws.{text_eq_iff}
use chartly.Text.Sort.{count, sort, place}
use chartly.Dict.{lookup, insert, is_some}
use chartly.Workflow.Topo.Degree.{outs}
use chartly.Workflow.{
  Dag, node_exists, node_missing, cycle_detected, new_dag, add_node, add_edge, dependents,
  dependencies,
}
use chartly.Workflow.Topo.{
  topo_sort, reverse_topo_sort, validate, check_edges, PlanStep, JobPlan, build_from_plan,
}
use chartly.Workflow.Topo.Sorted.{
  IsTopological, IsCyclic, IsJoined, HasEdge, topo_sort_decides, cyclic_refused,
}
use chartly.Workflow.Topo.Build.{build_from_plan_sorts, step_node, plan_edges}

abbrev step : Text → List Text → PlanStep
step id after = record { id = id; kind = lit "run"; after = after; params = [] }

-- A diamond whose steps come in the wrong order.
abbrev diamond : JobPlan
diamond = record {
  job_type = lit "ingest";
  source_id = lit "s";
  steps =
      step (lit "d") (lit "c" ∷ lit "b" ∷ [])
      ∷ step (lit " c ") (lit "a" ∷ [])
      ∷ step (lit "b") (lit "a" ∷ [])
      ∷ step (lit "a") []
      ∷ [];
}

abbrev diamond_dag : Dag
diamond_dag = record { nodes = map step_node diamond.steps; edges = plan_edges diamond.steps }

diamond_built : build_from_plan diamond ≡ inr diamond_dag
unfolding build_from_plan sort place text_lt text_eq trim_space insert lookup add_node add_edge
diamond_built = refl

diamond_order : topo_sort diamond_dag ≡ inr (lit "a" ∷ lit "b" ∷ lit "c" ∷ lit "d" ∷ [])
unfolding topo_sort sort place text_lt text_eq trim_space insert lookup
diamond_order = refl

diamond_reverse : reverse_topo_sort diamond_dag ≡ inr (lit "d" ∷ lit "c" ∷ lit "b" ∷ lit "a" ∷ [])
unfolding reverse_topo_sort sort place text_lt text_eq trim_space insert lookup
diamond_reverse = refl

diamond_dependencies : dependencies diamond_dag (lit "d") ≡ lit "b" ∷ lit "c" ∷ []
unfolding dependencies sort place text_lt text_eq trim_space insert lookup
diamond_dependencies = refl

diamond_dependents : dependents diamond_dag (lit "a") ≡ lit "b" ∷ lit "c" ∷ []
unfolding dependents sort place text_lt text_eq trim_space insert lookup
diamond_dependents = refl

build_from_plan_sorts_example :
    (diamond_dag.nodes ≡ map step_node diamond.steps)
    × (diamond_dag.edges ≡ plan_edges diamond.steps)
    × ((order : List Text) × (topo_sort diamond_dag ≡ inr order) × IsTopological diamond_dag order)
build_from_plan_sorts_example = build_from_plan_sorts diamond diamond_dag diamond_built

diamond-IsJoined : IsJoined diamond_dag
unfolding check_edges sort place text_lt text_eq trim_space insert lookup
diamond-IsJoined = ((refl, (refl, (refl, (refl, tt)))), refl)

topo_sort_decides_example :
    ((order : List Text) × (topo_sort diamond_dag ≡ inr order) × IsTopological diamond_dag order)
    ⊎ ((topo_sort diamond_dag ≡ inl cycle_detected) × IsCyclic diamond_dag)
topo_sort_decides_example = topo_sort_decides diamond_dag diamond-IsJoined

-- Two steps that wait for each other.
abbrev two_dag : Dag
two_dag = record {
  nodes = map step_node (step (lit "a") [] ∷ step (lit "b") [] ∷ []);
  edges = record { from = lit "a"; to = lit "b" } ∷ record { from = lit "b"; to = lit "a" } ∷ [];
}

two_dag-IsJoined : IsJoined two_dag
unfolding check_edges sort place text_lt text_eq trim_space insert lookup
two_dag-IsJoined = ((refl, (refl, tt)), refl)

a_edge : HasEdge two_dag (lit "b") (lit "a")
unfolding outs count text_eq
a_edge = omega arith

b_edge : HasEdge two_dag (lit "a") (lit "b")
unfolding outs count text_eq
b_edge = omega arith

two_dag_nodes :
    (k : Text)
    → is_some (lookup k two_dag.nodes) ≡ true
    → (f : Text) × (is_some (lookup f two_dag.nodes) ≡ true) × HasEdge two_dag f k
unfolding outs count sort place text_lt text_eq trim_space insert lookup
two_dag_nodes k h = elim (Bool-cases (text_eq (lit "a") k)) [
  | inl a ↦
      (lit "b", refl, subst (HasEdge two_dag (lit "b")) ((text_eq_iff (lit "a") k).0 a) a_edge)
  | inr n ↦ elim (Bool-cases (text_eq (lit "b") k)) [
    | inl b ↦
        (lit "a", refl, subst (HasEdge two_dag (lit "a")) ((text_eq_iff (lit "b") k).0 b) b_edge)
    | inr m ↦ absurd (ground (arith, h, n, m))
  ]
]

two_dag-IsCyclic : IsCyclic two_dag
two_dag-IsCyclic = record {
  on_cycle = λ k. is_some (lookup k two_dag.nodes);
  one = lit "a";
  has_one = unfold lookup text_eq trim_space in refl;
  all_nodes = λ k h. h;
  from_one = two_dag_nodes;
}

goes_round : topo_sort two_dag ≡ inl cycle_detected
goes_round = cyclic_refused two_dag two_dag-IsJoined two_dag-IsCyclic

twice :
    (add_node
      (add_node new_dag (step_node (step (lit "a") [])).1).0
      (step_node (step (lit "a") [])).1).1
    ≡ some (node_exists (lit "a"))
unfolding add_node sort place text_lt text_eq trim_space insert lookup
twice = refl

dangling : (add_edge two_dag (lit "a") (lit "z")).1 ≡ some (node_missing (lit "z"))
unfolding add_edge sort place text_lt text_eq trim_space insert lookup
dangling = refl

two_invalid : validate two_dag ≡ some cycle_detected
unfolding validate sort place text_lt text_eq trim_space insert lookup
two_invalid = refl
