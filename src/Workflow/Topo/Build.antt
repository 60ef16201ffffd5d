-- ===== src/Workflow/Topo/Build.antt =====
-- What `BuildFromPlan` makes of a plan.
use chartly.Prelude.{
  ◌≡◌, refl, sym, ap, ◌∙◌, true, false, ◌||◌, none, Option-cases, Sum-cases, List, [], ◌∷◌, ◌++◌,
  map, arith, inl, inr, append-nil, append_assoc,
}
use mathlib.Core.Path.{subst}
use chartly.Text.{Text, text_eq, is_empty, trim_space}
use chartly.Dict.{lookup, is_some, IsUnique, insert_new, insert-IsUnique}
use chartly.Workflow.{Node, Edge, Dag, new_dag, add_node, add_edge}
use chartly.Workflow.Topo.{
  topo_sort, validate, check_edges, PlanStep, JobPlan, add_steps, add_dependencies, add_plan_edges,
  build_from_plan,
}
use chartly.Workflow.Topo.Sorted.{IsTopological, IsJoined, topo_sort_decides}

-- The node of a step, and the edges of its dependencies.
abbrev pub step_node : PlanStep → Text × Node
step_node s =
    (trim_space s.id, record { id = trim_space s.id; kind = trim_space s.kind; params = s.params })

abbrev pub edges_to : Text → List Text → List Edge
edges_to to [] = []
edges_to to (dep ∷ deps) = record { from = trim_space dep; to = to } ∷ edges_to to deps

abbrev pub plan_edges : List PlanStep → List Edge
plan_edges [] = []
plan_edges (s ∷ steps) = edges_to (trim_space s.id) s.after ++ plan_edges steps

-- A successful `AddNode` appends the node, under a new key.
add_node_ok :
    (d : Dag) (n : Node)
    → (add_node d n).1 ≡ none
    → IsUnique d.nodes
    → let d' = (add_node d n).0 in
      (d'.nodes ≡ d.nodes ++ (n.id, n) ∷ []) × (d'.edges ≡ d.edges) × IsUnique d'.nodes
unfolding add_node
add_node_ok d n h u =
    let fresh : lookup n.id d.nodes ≡ none = ground (arith, h) in
    let test : is_empty n.id ≡ false = ground (arith, h) in
    let kind : is_empty (trim_space n.kind) ≡ false = ground (arith, h, test) in
    rw (test, kind, fresh) (insert_new n.id n d.nodes fresh, refl, insert-IsUnique n.id n d.nodes u)

add_steps_ok :
    (steps : List PlanStep) (d d' : Dag)
    → add_steps steps d ≡ inr d'
    → IsUnique d.nodes
    → (d'.nodes ≡ d.nodes ++ map step_node steps) × (d'.edges ≡ d.edges) × IsUnique d'.nodes
unfolding add_steps
add_steps_ok [] d d' h u = ground (arith, h, u, append-nil d.nodes)
add_steps_ok (s ∷ steps) d d' h u =
    let n = (step_node s).1 in
    let added : (add_node d n).1 ≡ none = ground (arith, h) in
    let (nodes, edges, u') = add_node_ok d n added u in
    let (nodes', edges', u'') =
      add_steps_ok steps (add_node d n).0 d' (ground (arith, h, added)) u' in
    (
      nodes'
          ∙ ap (λ m. m ++ map step_node steps) nodes
          ∙ append_assoc d.nodes (step_node s ∷ []) (map step_node steps),
      edges' ∙ edges,
      u'',
    )

add_edge_ok :
    (d : Dag) (from to : Text)
    → (add_edge d from to).1 ≡ none
    → let d' = (add_edge d from to).0 in
      (d'.nodes ≡ d.nodes) × (d'.edges ≡ d.edges ++ record { from = from; to = to } ∷ [])
unfolding add_edge
add_edge_ok d from to h =
    let a : (is_empty from || is_empty to) ≡ false = ground (arith, h) in
    let b : text_eq from to ≡ false = ground (arith, h, a) in
    let c : is_some (lookup from d.nodes) ≡ true = ground (arith, h, a, b) in
    let e : is_some (lookup to d.nodes) ≡ true = ground (arith, h, a, b, c) in
    rw (a, b, c, e) (refl, refl)

add_dependencies_ok :
    (to : Text) (deps : List Text) (d d' : Dag)
    → add_dependencies to deps d ≡ inr d'
    → (d'.nodes ≡ d.nodes) × (d'.edges ≡ d.edges ++ edges_to to deps)
unfolding add_dependencies
add_dependencies_ok to [] d d' h = ground (arith, h, append-nil d.edges)
add_dependencies_ok to (dep ∷ deps) d d' h =
    let from = trim_space dep in
    let added : (add_edge d from to).1 ≡ none = ground (arith, h) in
    let (nodes, edges) = add_edge_ok d from to added in
    let (nodes', edges') =
      add_dependencies_ok to deps (add_edge d from to).0 d' (ground (arith, h, added)) in
    (
      nodes' ∙ nodes,
      edges'
          ∙ ap (λ es. es ++ edges_to to deps) edges
          ∙ append_assoc d.edges (record { from = from; to = to } ∷ []) (edges_to to deps),
    )

add_plan_edges_ok :
    (steps : List PlanStep) (d d' : Dag)
    → add_plan_edges steps d ≡ inr d'
    → (d'.nodes ≡ d.nodes) × (d'.edges ≡ d.edges ++ plan_edges steps)
unfolding add_plan_edges
add_plan_edges_ok [] d d' h = ground (arith, h, append-nil d.edges)
add_plan_edges_ok (s ∷ steps) d d' h =
    elim (Sum-cases (add_dependencies (trim_space s.id) s.after d)) [
      | inl (e, failed) ↦ absurd (ground (arith, h, failed))
      | inr (next, added) ↦
          let (nodes, edges) = add_dependencies_ok (trim_space s.id) s.after d next added in
          let (nodes', edges') = add_plan_edges_ok steps next d' (ground (arith, h, added)) in
          (
            nodes' ∙ nodes,
            edges'
                ∙ ap (λ es. es ++ plan_edges steps) edges
                ∙ append_assoc d.edges (edges_to (trim_space s.id) s.after) (plan_edges steps),
          )
    ]

validate_ok :
    (d : Dag)
    → validate d ≡ none
    → (check_edges d.nodes d.edges ≡ none) × ((order : List Text) × (topo_sort d ≡ inr order))
unfolding validate
validate_ok d h = elim (Option-cases (check_edges d.nodes d.edges)) [
  | inr (e, bad) ↦ absurd (ground (arith, h, bad))
  | inl fine ↦ elim (Sum-cases (topo_sort d)) [
    | inl (e, bad) ↦ absurd (ground (arith, h, fine, bad))
    | inr (order, sorted) ↦ (fine, (order, sorted))
  ]
]

topo_sort-IsTopological :
    (d : Dag) (order : List Text) → IsJoined d → topo_sort d ≡ inr order → IsTopological d order
topo_sort-IsTopological d order j h = elim (topo_sort_decides d j) [
  | inl (other, e, t) ↦ subst (IsTopological d) (ground (arith, e, h)) t
  | inr (e, c) ↦ absurd (ground (arith, e, h))
]

-- The graph that `BuildFromPlan` returns has one node for each step of the plan, in the plan's order
-- and under its trimmed identifier, and one edge for each dependency and no other. `TopoSort` sorts
-- it: every step stands once, after all the steps that it depends on.
pub build_from_plan_sorts :
    (p : JobPlan) (d : Dag)
    → build_from_plan p ≡ inr d
    → (d.nodes ≡ map step_node p.steps)
      × (d.edges ≡ plan_edges p.steps)
      × ((order : List Text) × (topo_sort d ≡ inr order) × IsTopological d order)
unfolding build_from_plan
build_from_plan_sorts p d h = elim (Sum-cases (add_steps p.steps new_dag)) [
  | inl (e, failed) ↦ absurd (ground (arith, h, failed))
  | inr (d1, first) ↦ elim (Sum-cases (add_plan_edges p.steps d1)) [
    | inl (e, failed) ↦ absurd (ground (arith, h, first, failed))
    | inr (d2, second) ↦
        let (nodes, edges, unique) = add_steps_ok p.steps new_dag d1 first tt in
        let (nodes', edges') = add_plan_edges_ok p.steps d1 d2 second in
        let valid : validate d2 ≡ none = ground (arith, h, first, second) in
        let same : d2 ≡ d = ground (arith, h, first, second, valid) in
        let (fine, (order, sorted)) = validate_ok d2 valid in
        let joined : IsJoined d2 = (subst IsUnique (sym nodes') unique, fine) in
        subst
          (λ d.
            (d.nodes ≡ map step_node p.steps)
            × (d.edges ≡ plan_edges p.steps)
            × ((order : List Text) × (topo_sort d ≡ inr order) × IsTopological d order))
          same
          (
            nodes' ∙ nodes,
            edges' ∙ ap (λ es. es ++ plan_edges p.steps) edges,
            (order, sorted, topo_sort-IsTopological d2 order joined sorted),
          )
  ]
]

-- A graph that is returned was validated.
pub build_from_plan-validate :
    (p : JobPlan) (d : Dag) → build_from_plan p ≡ inr d → validate d ≡ none
unfolding build_from_plan
build_from_plan-validate p d h = elim (Sum-cases (add_steps p.steps new_dag)) [
  | inl (e, failed) ↦ absurd (ground (arith, h, failed))
  | inr (d1, first) ↦ elim (Sum-cases (add_plan_edges p.steps d1)) [
    | inl (e, failed) ↦ absurd (ground (arith, h, first, failed))
    | inr (d2, second) ↦
        let valid : validate d2 ≡ none = ground (arith, h, first, second) in
        let same : d2 ≡ d = ground (arith, h, first, second, valid) in
        subst (λ d. validate d ≡ none) same valid
  ]
]
