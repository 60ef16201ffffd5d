-- ===== src/Workflow/Executor.antt =====
-- The executor of a workflow graph, services/orchestrator/internal/workflow/executor.go. The
-- handlers of the registry are parameters. The clock, the context and the deadline of each round
-- are read from `Moment`. The logger gets no result back and is left out.
pub mod Runs
mod Tests
use chartly.Prelude.{
  ℕ, suc, ◌*◌, ◌^◌, Bool, true, false, Option, none, some, List, [], ◌∷◌, ◌++◌, ◌⊎◌, inl, inr,
  if◌then◌else◌,
}
use chartly.Prelude.Int.{ℤ, or_default}
use chartly.Text.{Text, lit, trim_space, to_lower}
use chartly.Dict.{Dict, lookup}
use chartly.Workflow.{Node, Dag, Error}
use chartly.Workflow.Topo.{validate, topo_sort}

pub data Status : Type 0 where
  start ok error skip : Status

pub record TraceEvent : Type 0 where
  pub ts : Text
  pub step_id : Text
  pub kind : Text
  pub status : Status
  pub duration_ms : ℕ
  pub error_text : Text

-- A nil map of variables is an empty one.
pub record ExecContext : Type 0 where
  pub tenant_id : Text
  pub job_id : Text
  pub source_id : Text
  pub job_type : Text
  pub vars : Dict Text
  pub trace : List TraceEvent

-- A handler returns the text of an error, or the context that it has changed.
abbrev pub StepHandler : Type 0
StepHandler = Node → ExecContext → Text ⊎ ExecContext

abbrev pub Registry : Type 0
Registry = Text → Option (Option StepHandler)

pub data ContextErr : Type 0 where
  canceled deadline_exceeded : ContextErr

pub data ExecError : Type 0 where
  dag_invalid : Error → ExecError
  missing_node : Text → ExecError
  context_err : ContextErr → ExecError
  no_handler step_timeout : ExecError
  handler_err : Text → ExecError

pub record Executor : Type 0 where
  pub reg : Option Registry
  pub max_step_duration : ℕ
  pub hard_fail : Bool

unfoldable pub new_executor : Option Registry → Executor
new_executor reg = record { reg = reg; max_step_duration = 120 * 10 ^ 9; hard_fail = true }

-- A duration that is not positive changes nothing.
unfoldable pub with_max_step_duration : Executor → ℤ → Executor
with_max_step_duration e d = record e { max_step_duration = or_default d e.max_step_duration }

unfoldable pub with_hard_fail : Executor → Bool → Executor
with_hard_fail e v = record e { hard_fail = v }

-- What one round reads: whether the context is done, the clock before and after the handler, and
-- whether the step ran past `max_step_duration`.
pub record Moment : Type 0 where
  pub done : Option ContextErr
  pub started : Text
  pub ended : Text
  pub duration_ms : ℕ
  pub timed_out : Bool

unfoldable pub append_trace : ExecContext → TraceEvent → ExecContext
append_trace ec ev = record ec { trace = ec.trace ++ ev ∷ [] }

abbrev pub first_of {ℓ} : {A : Type ℓ} → Option A → Option A → Option A
first_of none b = b
first_of (some a) b = some a

-- !ok || h == nil
abbrev pub or_nil {ℓ} : {A : Type ℓ} → Option (Option A) → Option A
or_nil none = none
or_nil (some h) = h

abbrev pub handler_for : Option Registry → Node → Option StepHandler
handler_for none node = none
handler_for (some reg) node =
    or_nil (first_of (reg (to_lower (trim_space node.kind))) (reg node.kind))

-- What a round leaves: the loop goes on, or returns.
pub data Flow : Type 0 where
  go : ExecContext → Flow
  stop : ExecContext → ExecError → Flow

abbrev pub unless_hard : Bool → ExecContext → ExecError → Flow
unless_hard true ec e = stop ec e
unless_hard false ec e = go ec

abbrev pub event : Text → Node → Status → ℕ → Text → TraceEvent
event ts node status ms text = record {
  ts = ts;
  step_id = node.id;
  kind = node.kind;
  status = status;
  duration_ms = ms;
  error_text = text;
}

-- After the handler returned.
unfoldable pub finish_step : Executor → Moment → Node → ExecContext → Text ⊎ ExecContext → Flow
unfolding append_trace
finish_step e m node ec (inl code) =
    let text = if m.timed_out then lit "step timeout" else code in
    let failure = if m.timed_out then step_timeout else handler_err code in
    unless_hard e.hard_fail (append_trace ec (event m.ended node error m.duration_ms text)) failure
finish_step e m node ec (inr out) = go (append_trace out (event m.ended node ok m.duration_ms []))

unfoldable pub run_handler : Executor → Moment → Node → ExecContext → Option StepHandler → Flow
unfolding finish_step append_trace
run_handler e m node ec none =
    let text = lit "no handler for step kind: " ++ node.kind in
    unless_hard e.hard_fail (append_trace ec (event m.ended node skip 0 text)) no_handler
run_handler e m node ec (some h) = finish_step e m node ec (h node ec)

-- One round of the loop, for a node that is there.
unfoldable pub run_step : Executor → Moment → Node → ExecContext → Flow
unfolding run_handler append_trace
run_step e m node ec =
    run_handler e m node (append_trace ec (event m.started node start 0 []))
      (handler_for e.reg node)

abbrev pub Outcome : Type 0
Outcome = ExecContext × Option ExecError

-- The select before a round.
abbrev pub unless_done : Option ContextErr → ExecContext → Outcome → Outcome
unless_done (some c) ec next = (ec, some (context_err c))
unless_done none ec next = next

abbrev pub with_node : Option Node → Text → ExecContext → (Node → Outcome) → Outcome
with_node none id ec next = (ec, some (missing_node id))
with_node (some node) id ec next = next node

abbrev pub after_step : Flow → (ExecContext → Outcome) → Outcome
after_step (stop ec failure) next = (ec, some failure)
after_step (go ec) next = next ec

-- The loop over the order, with the rounds counted from `i`.
unfoldable pub execute_steps :
    Executor → (ℕ → Moment) → Dict Node → ℕ → List Text → ExecContext → Outcome
unfolding run_step
execute_steps e env nodes i [] ec = (ec, none)
execute_steps e env nodes i (id ∷ ids) ec = unless_done (env i).done ec (
    with_node (lookup id nodes) id ec (λ node.
      after_step (run_step e (env i) node ec) (λ ec'. execute_steps e env nodes (suc i) ids ec')))

abbrev pub when_valid : Option Error → ExecContext → Outcome → Outcome
when_valid (some invalid) ec next = (ec, some (dag_invalid invalid))
when_valid none ec next = next

abbrev pub when_sorted : Error ⊎ List Text → ExecContext → (List Text → Outcome) → Outcome
when_sorted (inl invalid) ec next = (ec, some (dag_invalid invalid))
when_sorted (inr order) ec next = next order

unfoldable pub execute : Executor → (ℕ → Moment) → Dag → ExecContext → Outcome
unfolding execute_steps validate topo_sort
execute e env d ec =
    when_valid (validate d) ec
      (when_sorted (topo_sort d) ec (λ order. execute_steps e env d.nodes 0 order ec))
