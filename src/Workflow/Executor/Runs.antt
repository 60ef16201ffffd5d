-- ===== src/Workflow/Executor/Runs.antt =====
-- The trace of an execution against the order of the graph.
use chartly.Prelude.{
  ℕ, suc, ◌<◌, ◌≡◌, refl, sym, ap, ◌∙◌, true, Option, none, some, Option-cases, List, [], ◌∷◌, ◌++◌,
  map, arith, ◌⊎◌, inl, inr, Sum-cases, append-nil, append_assoc, All, Bool-cases,
}
use mathlib.Core.Path.{subst}
use mathlib.Core.List.{map-append}
use chartly.Text.{Text, text_eq}
use chartly.Text.Laws.{text_eq_iff, text_eq_refl}
use chartly.Text.Sort.{count}
use chartly.Dict.{Dict, lookup}
use chartly.Workflow.{Node, Dag}
use chartly.Workflow.Topo.{PlanStep, JobPlan, build_from_plan}
use chartly.Workflow.Topo.Sorted.{IsTopological}
use chartly.Workflow.Topo.Build.{step_node, build_from_plan_sorts, build_from_plan-validate}
use chartly.Workflow.Executor.{
  Status, start, ok, error, skip, TraceEvent, ExecContext, StepHandler, Registry, Outcome,
  after_step, Executor, Moment, Flow, go, stop, append_trace, event, handler_for, finish_step,
  run_handler, run_step, execute_steps, execute,
}

-- What a trace says of the steps, without the times and texts.
abbrev pub marks : List TraceEvent → List (Text × Status)
marks = map (λ e. (e.step_id, e.status))

abbrev pub completed : List Text → List (Text × Status)
completed [] = []
completed (id ∷ ids) = (id, start) ∷ (id, ok) ∷ completed ids

-- No handler changes the trace.
abbrev pub KeepTrace : Option Registry → Type 0
KeepTrace reg =
    (node : Node) (h : StepHandler) (ec out : ExecContext)
    → handler_for reg node ≡ some h
    → h node ec ≡ inr out
    → out.trace ≡ ec.trace

-- What a step that did not complete leaves: nothing, or its start and its failure.
pub data Unfinished : List Text → List (Text × Status) → Type 0 where
  untried : (id : Text) (ids : List Text) → Unfinished (id ∷ ids) []
  tried : (id : Text) (ids : List Text) → Unfinished (id ∷ ids) ((id, start) ∷ (id, error) ∷ [])
  skipped : (id : Text) (ids : List Text) → Unfinished (id ∷ ids) ((id, start) ∷ (id, skip) ∷ [])

-- Some steps completed in the order, and no step started after one that did not.
pub record Stops (order : List Text) (before after : List (Text × Status)) : Type 0 where
  pub done : List Text
  pub rest : List Text
  pub last : List (Text × Status)
  pub split : order ≡ done ++ rest
  pub at_rest : Unfinished rest last
  pub traced : after ≡ before ++ (completed done ++ last)

abbrev pub RunsInOrder : List Text → ExecContext → Outcome → Type 0
RunsInOrder order ec (ec', none) = marks ec'.trace ≡ marks ec.trace ++ completed order
RunsInOrder order ec (ec', some e) = Stops order (marks ec.trace) (marks ec'.trace)

-- What one round does: it completes the step, or returns.
abbrev Round : Text → ExecContext → Flow → Type 0
Round id ec (go ec') = marks ec'.trace ≡ marks ec.trace ++ (id, start) ∷ (id, ok) ∷ []
Round id ec (stop ec' e) =
    (marks ec'.trace ≡ marks ec.trace ++ (id, start) ∷ (id, error) ∷ [])
    ⊎ (marks ec'.trace ≡ marks ec.trace ++ (id, start) ∷ (id, skip) ∷ [])

two_events :
    (xs : List TraceEvent) (a b : TraceEvent)
    → marks ((xs ++ a ∷ []) ++ b ∷ [])
      ≡ marks xs ++ (a.step_id, a.status) ∷ (b.step_id, b.status) ∷ []
two_events xs a b = simp (append_assoc, map-append)

module _ (e : Executor) (hard : e.hard_fail ≡ true) (keep : KeepTrace e.reg) where
  finish_step-Round :
      (m : Moment) (node : Node) (h : StepHandler) (ec : ExecContext)
      → handler_for e.reg node ≡ some h
      → let started = append_trace ec (event m.started node start 0 []) in
        Round node.id ec (finish_step e m node started (h node started))
  unfolding finish_step append_trace
  finish_step-Round m node h ec found =
      let started = append_trace ec (event m.started node start 0 []) in
      elim (Sum-cases (h node started)) [
        | inl (code, failed) ↦ rw (failed, hard) (inl (two_events ec.trace _ _))
        | inr (out, done) ↦ rw (done, keep node h started out found done) (two_events ec.trace _ _)
      ]

  run_step-Round :
      (m : Moment) (node : Node) (ec : ExecContext) → Round node.id ec (run_step e m node ec)
  unfolding run_step run_handler append_trace
  run_step-Round m node ec = elim (Option-cases (handler_for e.reg node)) [
    | inl missing ↦ rw missing (rw hard (inr (two_events ec.trace _ _)))
    | inr (h, found) ↦ rw found (finish_step-Round m node h ec found)
  ]

  -- A round that completed its step, before the rest of the loop.
  step-RunsInOrder :
      (id : Text) (ids : List Text) (ec ec' : ExecContext) (r : Outcome)
      → Round id ec (go ec')
      → RunsInOrder ids ec' r
      → RunsInOrder (id ∷ ids) ec r
  step-RunsInOrder id ids ec ec' (end, none) one rest =
      rest
      ∙ ap (λ xs. xs ++ completed ids) one
      ∙ append_assoc (marks ec.trace) ((id, start) ∷ (id, ok) ∷ []) (completed ids)
  step-RunsInOrder id ids ec ec' (end, some f) one rest = record {
    done = id ∷ rest.done;
    rest = rest.rest;
    last = rest.last;
    split = ap (λ xs. id ∷ xs) rest.split;
    at_rest = rest.at_rest;
    traced =
        rest.traced
        ∙ ap (λ xs. xs ++ (completed rest.done ++ rest.last)) one
        ∙ append_assoc (marks ec.trace) ((id, start) ∷ (id, ok) ∷ [])
            (completed rest.done ++ rest.last);
  }

  after_step-RunsInOrder :
      (id : Text) (ids : List Text) (ec : ExecContext) (f : Flow) (next : ExecContext → Outcome)
      → Round id ec f
      → ((ec' : ExecContext) → RunsInOrder ids ec' (next ec'))
      → RunsInOrder (id ∷ ids) ec (after_step f next)
  after_step-RunsInOrder id ids ec (go ec') next one rest =
      step-RunsInOrder id ids ec ec' (next ec') one (rest ec')
  after_step-RunsInOrder id ids ec (stop ec' f) next (inl one) rest = record {
    done = [];
    rest = id ∷ ids;
    last = (id, start) ∷ (id, error) ∷ [];
    split = refl;
    at_rest = tried id ids;
    traced = one;
  }
  after_step-RunsInOrder id ids ec (stop ec' f) next (inr one) rest = record {
    done = [];
    rest = id ∷ ids;
    last = (id, start) ∷ (id, skip) ∷ [];
    split = refl;
    at_rest = skipped id ids;
    traced = one;
  }

  execute_steps-RunsInOrder :
      (env : ℕ → Moment) (nodes : Dict Node) (i : ℕ) (order : List Text) (ec : ExecContext)
      → All (λ id. (node : Node) × (lookup id nodes ≡ some node) × (node.id ≡ id)) order
      → RunsInOrder order ec (execute_steps e env nodes i order ec)
  unfolding execute_steps
  execute_steps-RunsInOrder env nodes i [] ec there = sym (append-nil (marks ec.trace))
  execute_steps-RunsInOrder env nodes i (id ∷ ids) ec there = elim (Option-cases ((env i).done)) [
    | inr (c, h) ↦ rw h (record {
      done = [];
      rest = id ∷ ids;
      last = [];
      split = refl;
      at_rest = untried id ids;
      traced = sym (append-nil (marks ec.trace));
    })
    | inl h ↦
        let (node, found, same) = there.0 in
        rw (h, found)
          (after_step-RunsInOrder id ids ec (run_step e (env i) node ec)
            (λ ec'. execute_steps e env nodes (suc i) ids ec')
            (subst (λ k. Round k ec (run_step e (env i) node ec)) same
              (run_step-Round (env i) node ec))
            (λ ec'. execute_steps-RunsInOrder env nodes (suc i) ids ec' there.1))
  ]

-- The nodes of the order are found, under their own identifiers.
lookup-step_node :
    (steps : List PlanStep) (k : Text) (n : Node)
    → lookup k (map step_node steps) ≡ some n
    → n.id ≡ k
unfolding lookup
lookup-step_node [] k n h = absurd (ground (arith, h))
lookup-step_node (s ∷ steps) k n h = elim (Bool-cases (text_eq (step_node s).0 k)) [
  | inl same ↦
      let found : (step_node s).1 ≡ n = ground (arith, h, same) in
      ap (λ (n : Node). n.id) (sym found) ∙ (text_eq_iff (step_node s).0 k).0 same
  | inr other ↦ lookup-step_node steps k n (ground (arith, h, other))
]

All-count {κ} :
    (P : Text → Type κ) (xs : List Text) → ((k : Text) → 0 < count k xs → P k) → All P xs
unfolding count
All-count P [] h = tt
All-count P (x ∷ xs) h =
    (h x (rw (text_eq_refl x) (omega arith)), All-count P xs (λ k p. h k (ground (arith, p))))

-- `Execute` with hard failure, on the graph that `BuildFromPlan` made of a plan, with handlers that
-- leave the trace alone: it takes the steps in an order in which each stands once and after its
-- dependencies. Where it returns no error, the trace gets the start and the success of every step of
-- the plan in this order. Where it returns an error, some steps at the front of the order completed,
-- at most the next one was started, and it failed or was skipped; no later step was started.
pub execute_in_order :
    (p : JobPlan) (d : Dag) (e : Executor) (env : ℕ → Moment) (ec : ExecContext)
    → build_from_plan p ≡ inr d
    → e.hard_fail ≡ true
    → KeepTrace e.reg
    → (order : List Text) × IsTopological d order × RunsInOrder order ec (execute e env d ec)
unfolding execute
execute_in_order p d e env ec built hard keep =
    let (nodes, edges, (order, sorted, topological)) = build_from_plan_sorts p d built in
    let there =
      All-count (λ id. (node : Node) × (lookup id d.nodes ≡ some node) × (node.id ≡ id)) order
        (λ k h. elim (Option-cases (lookup k d.nodes)) [
          | inl missing ↦ absurd (ground (arith, h, topological.each_once k, missing))
          | inr (n, found) ↦
              (n, found, lookup-step_node p.steps k n (ap (lookup k) (sym nodes) ∙ found))
        ]) in
    (
      order,
      topological,
      rw (build_from_plan-validate p d built, sorted)
          (execute_steps-RunsInOrder e hard keep env d.nodes 0 order ec there),
    )
