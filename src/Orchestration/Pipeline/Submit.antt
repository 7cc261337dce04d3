-- ===== src/Orchestration/Pipeline/Submit.antt =====
-- orchestration/pipeline.rs: `submit_handoff` and `resolve_next_step`.
use auto_ai.Common.{
  ℕ, ◌+◌, ◌-◌, String, [], ◌∷◌, ◌++◌, Option, none, some, not, ◌==◌, string_eq, leb, if◌then◌else◌,
  length, get_elem?, add32, add64, ◌>>=◌,
}
use auto_ai.Common.Format.{format, show}
use auto_ai.Common.HashMap
use auto_ai.Orchestration.Budget.{record_usage}
use auto_ai.Orchestration.Flow.{FlowSpec, FlowStep, ExitRouting, next, loop, get_step_index}
use auto_ai.Orchestration.Handoff.{HandoffDocument}
use auto_ai.Orchestration.Pipeline.{
  AdvanceResult, StepRecord, PipelineStatus, running, NextStep, index, complete, error, pause_at,
  PipelineEngine, Step, advance,
}

-- `self.gate_feedback.entry(id).or_default().push(text)`
abbrev pub push_feedback : String → String → PipelineEngine → PipelineEngine
push_feedback id text e = record e {
  gate_feedback = HashMap.modify id [] (λ texts. texts ++ text ∷ []) e.gate_feedback;
}

-- The role that the exit leads to, if it leads to a step.
unfoldable pub expected_role : FlowSpec → ℕ → ExitRouting → Option String
expected_role flow current next = do step ← get_elem? flow.steps (current + 1); some step.role_id
expected_role flow current (loop target _) = do
  idx ← get_step_index flow target
  step ← get_elem? flow.steps idx
  some step.role_id

abbrev pub correction : String → String → String
correction to expected =
    format ("[AUTO-CORRECTION] target '" ∷ to ∷ "' corrected to '" ∷ expected ∷ "'." ∷ [])

-- The feedback of a correction goes to the step that ran.
unfoldable pub correct_target :
    String → Option String → HandoffDocument → PipelineEngine → HandoffDocument × PipelineEngine
correct_target step_id none h e = (h, e)
correct_target step_id (some expected) h e =
    if h.to == ""
    then (record h { to = expected }, e)
    else if not (h.to == expected)
    then (record h { to = expected }, push_feedback step_id (correction h.to expected) e)
    else (h, e)

-- The engine's totals, then the totals written into the document.
unfoldable pub account :
    String → HandoffDocument → PipelineEngine → HandoffDocument × PipelineEngine
account role_id h e =
    let tokens = h.token_usage.step_tokens in
    let total = add64 e.cumulative_tokens tokens in
    let tracker = record_usage e.budget_tracker role_id tokens 0 in
    (
      record h {
        token_usage = record {
          step_tokens = tokens;
          cumulative = total;
          budget_remaining = tracker.run_budget.limit - total;
        };
      },
      record e { cumulative_tokens = total; budget_tracker = tracker },
    )

unfoldable pub push_record :
    String → String → ℕ → ℕ → HandoffDocument → PipelineEngine → PipelineEngine
push_record step_id role_id started now h e = record e { step_history = e.step_history ++ new ∷ [] }
  where
    new : StepRecord
    new = record {
      step_id = step_id;
      role_id = role_id;
      handoff = some h;
      started_at = started;
      completed_at = now;
      iteration = HashMap.get_or step_id 0 e.loop_counters;
    }

-- `self.flow.get_step_index(t).map(NextStep::Index).unwrap_or_else(…)`
unfoldable pub loop_target : String → Option ℕ → NextStep
loop_target target none = error (format ("Loop target '" ∷ target ∷ "' not found" ∷ []))
loop_target target (some idx) = index idx

abbrev pub loop_reason : ℕ → String → String
loop_reason max_iterations step_id =
    format ("Loop max (" ∷ show max_iterations ∷ ") reached at '" ∷ step_id ∷ "'" ∷ [])

-- `resolve_next_step`; only the loop counters change.
unfoldable pub resolve_next_step : String → ExitRouting → PipelineEngine → NextStep × PipelineEngine
unfolding loop_target
resolve_next_step step_id next e = (
  (if leb (length e.flow.steps) (e.current_step + 1) then complete else index (e.current_step + 1)),
  e,
)
resolve_next_step step_id (loop target max_iterations) e =
    let count = add32 (HashMap.get_or step_id 0 e.loop_counters) 1 in
    (
      (if leb max_iterations count
          then pause_at (loop_reason max_iterations step_id) target
          else loop_target target (get_step_index e.flow target)),
      record e { loop_counters = HashMap.insert step_id count e.loop_counters },
    )

-- `if let Some(idx) = … { self.current_step = idx }`
abbrev pub move_to : Option ℕ → PipelineEngine → PipelineEngine
move_to none e = e
move_to (some idx) e = record e { current_step = idx }

-- The `match next` at the end of `submit_handoff`.
unfoldable pub route : ℕ → NextStep → PipelineEngine → Step
route now (index idx) e = advance now (record e { current_step = idx })
route now complete e = some (
  record e { current_step = length e.flow.steps; status = PipelineStatus.completed },
  AdvanceResult.completed,
)
route now (error msg) e =
    some (record e { status = PipelineStatus.failed msg }, AdvanceResult.failed msg)
route now (pause_at reason resume_step_id) e =
    let moved = move_to (get_step_index e.flow resume_step_id) e in
    do
      step ← get_elem? moved.flow.steps moved.current_step
      some (
        record moved { status = PipelineStatus.paused moved.current_step },
        AdvanceResult.paused step.id reason,
      )

-- What is recorded of a finished step, before the engine moves on.
unfoldable pub settle :
    String → ℕ → ℕ → FlowStep → HandoffDocument → PipelineEngine → PipelineEngine
unfolding correct_target account push_record
settle step_id started now step h e =
    let expected = expected_role e.flow e.current_step step.exit in
    let (h₁, e₁) = correct_target step_id expected h (record e { gate_resolved_for_step = none }) in
    let (h₂, e₂) = account step.role_id h₁ e₁ in push_record step_id step.role_id started now h₂ e₂

unfoldable pub submit_running : String → ℕ → ℕ → HandoffDocument → PipelineEngine → Step
unfolding settle resolve_next_step route
submit_running step_id started now h e = do
  step ← get_elem? e.flow.steps e.current_step
  let (n, e') = resolve_next_step step_id step.exit (settle step_id started now step h e)
  route now n e'

abbrev pub not_running : String
not_running = "submit_handoff called but no step is running"

unfoldable pub submit_from : PipelineStatus → ℕ → HandoffDocument → PipelineEngine → Step
unfolding submit_running
submit_from (running step_id _ started) now h e = submit_running step_id started now h e
submit_from _ now h e = advance now (record e { status = PipelineStatus.failed not_running })

unfoldable pub submit_handoff : ℕ → HandoffDocument → PipelineEngine → Step
unfolding submit_from
submit_handoff now h e = submit_from e.status now h e
