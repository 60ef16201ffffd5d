-- ===== src/Workflow.antt =====
-- The graph of a job's steps, services/orchestrator/internal/workflow/dag_builder.go. A `*DAG` is not
-- nil.
pub mod Topo
pub mod Executor
mod Tests
use chartly.Prelude.{
  ◌≡◌, Bool, true, false, ◌||◌, Option, none, some, List, [], ◌∷◌, ◌++◌, map, ◌⊎◌, inl, inr,
  if◌then◌else◌,
}
use chartly.Text.{Text, lit, text_eq, is_empty, trim_space}
use chartly.Text.Sort.{sort}
use chartly.Dict.{Dict, lookup, insert, is_some}

pub record Node : Type 0 where
  pub id : Text
  pub kind : Text
  pub params : Dict Text

pub record Edge : Type 0 where
  pub from : Text
  pub to : Text

pub record Dag : Type 0 where
  pub nodes : Dict Node
  pub edges : List Edge

-- `edge_invalid` has the message of the error; `out_of_fuel` is no error of the code.
pub data Error : Type 0 where
  edge_invalid : Text → Error
  node_exists : Text → Error
  node_missing : Text → Error
  cycle_detected : Error
  out_of_fuel : Error

abbrev pub new_dag : Dag
new_dag = record { nodes = []; edges = [] }

unfoldable pub add_node : Dag → Node → Dag × Option Error
add_node d n =
    if is_empty n.id
    then (d, some (edge_invalid (lit "empty id")))
    else if is_empty (trim_space n.kind)
    then (d, some (edge_invalid (lit "kind required")))
    else if is_some (lookup n.id d.nodes)
    then (d, some (node_exists n.id))
    else (record d { nodes = insert n.id n d.nodes }, none)

unfoldable pub add_edge : Dag → Text → Text → Dag × Option Error
add_edge d from to =
    if is_empty from || is_empty to
    then (d, some (edge_invalid (lit "empty endpoint")))
    else if text_eq from to
    then (d, some (edge_invalid (lit "self edge")))
    else if is_some (lookup from d.nodes)
    then if is_some (lookup to d.nodes)
      then (record d { edges = d.edges ++ record { from = from; to = to } ∷ [] }, none)
      else (d, some (node_missing to))
    else (d, some (node_missing from))

-- The targets of the edges from a node, and the sources of those to it, each once and sorted.
abbrev sorted_keys : Dict (Unit {0}) → List Text
sorted_keys s = sort (map (λ p. p.0) s)

abbrev targets : Text → List Edge → Dict (Unit {0}) → Dict (Unit {0})
targets id [] found = found
targets id (e ∷ es) found =
    targets id es (if text_eq e.from id then insert e.to tt found else found)

abbrev sources : Text → List Edge → Dict (Unit {0}) → Dict (Unit {0})
sources id [] found = found
sources id (e ∷ es) found =
    sources id es (if text_eq e.to id then insert e.from tt found else found)

unfoldable pub dependents : Dag → Text → List Text
dependents d id = sorted_keys (targets id d.edges [])

unfoldable pub dependencies : Dag → Text → List Text
dependencies d id = sorted_keys (sources id d.edges [])
