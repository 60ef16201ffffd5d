-- ===== src/Workflow/Executor/Tests.antt =====
-- An execution of a concrete plan.
use chartly.Prelude.{◌≡◌, refl, ap, ◌∙◌, true, false, none, some, List, [], ◌∷◌, map, ℕ, inl, inr}
use chartly.Text.{Text, lit, text_eq, text_lt, trim_space}
use chartly.Text.Sort.{sort, place}
use chartly.Dict.{lookup, insert}
use chartly.Workflow.{Dag, add_node, add_edge}
use chartly.Workflow.Topo.{JobPlan, build_from_plan}
use chartly.Workflow.Topo.Sorted.{IsTopological}
use chartly.Workflow.Topo.Build.{step_node, plan_edges}
use chartly.Workflow.Executor.{
  ok, error, start, StepHandler, Registry, ExecContext, Executor, Moment, execute,
}
use chartly.Workflow.Executor.Runs.{marks, KeepTrace, RunsInOrder, execute_in_order}

abbrev plan : JobPlan
plan = record {
  job_type = lit "ingest";
  source_id = lit "s";
  steps =
      record { id = lit "b"; kind = lit "fetch"; after = lit "a" ∷ []; params = [] }
      ∷ record { id = lit "a"; kind = lit "fetch"; after = []; params = [] }
      ∷ [];
}

abbrev plan_dag : Dag
plan_dag = record { nodes = map step_node plan.steps; edges = plan_edges plan.steps }

plan_built : build_from_plan plan ≡ inr plan_dag
unfolding build_from_plan sort place text_lt text_eq trim_space insert lookup add_node add_edge
plan_built = refl

-- Stores the identifier of the node in the variables.
abbrev remember : StepHandler
remember node ec = inr (record ec { vars = (lit "last", node.id) ∷ ec.vars })

abbrev registry : Registry
registry kind = some (some remember)

abbrev executor : Executor
executor = record { reg = some registry; max_step_duration = 1000; hard_fail = true }

abbrev env : ℕ → Moment
env i = record {
  done = none;
  started = lit "t";
  ended = lit "u";
  duration_ms = 1;
  timed_out = false;
}

abbrev context : ExecContext
context = record {
  tenant_id = lit "t";
  job_id = lit "j";
  source_id = lit "s";
  job_type = lit "ingest";
  vars = [];
  trace = [];
}

executor-KeepTrace : KeepTrace (some registry)
executor-KeepTrace node h ec out found done =
    let same : remember ≡ h = cc in
    let ran : remember node ec ≡ inr out = ap (λ (k : StepHandler). k node ec) same ∙ done in cc

execute_in_order_example :
    (order : List Text) × IsTopological plan_dag order
    × RunsInOrder order context (execute executor env plan_dag context)
execute_in_order_example =
    execute_in_order plan plan_dag executor env context plan_built refl executor-KeepTrace

marks-execute :
    marks ((execute executor env plan_dag context).0.trace)
    ≡ (lit "a", start) ∷ (lit "a", ok) ∷ (lit "b", start) ∷ (lit "b", ok) ∷ []
unfolding execute sort place text_lt text_eq trim_space insert lookup
marks-execute = refl

-- The handler of the second round fails after the deadline.
abbrev late : ℕ → Moment
late i = record (env i) { timed_out = true }

abbrev failing : StepHandler
failing node ec = inl (lit "boom")

execute_fails :
    marks (
      (execute
        (record executor { reg = some (λ kind. some (some failing)) })
        late
        plan_dag
        context).0.trace)
    ≡ (lit "a", start) ∷ (lit "a", error) ∷ []
unfolding execute sort place text_lt text_eq trim_space insert lookup
execute_fails = refl
