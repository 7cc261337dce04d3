-- ===== src/Orchestration/Pipeline/Control.antt =====
-- orchestration/pipeline.rs: gates, pausing, resuming, re-running, and the queries.
use auto_ai.Common.{ℕ, String, List, [], ◌∷◌, Option, none, some, string_eq, get_elem?, ◌>>=◌}
use auto_ai.Common.HashMap
use auto_ai.Common.HashMap.{HashMap}
use auto_ai.Orchestration.Flow.{FlowStep}
use auto_ai.Orchestration.Pipeline.{
  AdvanceResult, GateDecision, approve, reject, PipelineStatus, idle, running, PipelineEngine,
  PendingGate, Step, advance,
}
use auto_ai.Orchestration.Pipeline.Submit.{push_feedback}

-- What both decisions do after the feedback: the gate is resolved and the engine idle.
abbrev pub open_gate : String → PipelineEngine → PipelineEngine
open_gate id e = record e { gate_resolved_for_step = some id; status = idle }

unfoldable pub decide_gate : GateDecision → String → PipelineEngine → PipelineEngine
decide_gate approve id e = open_gate id e
decide_gate (reject feedback) id e = open_gate id (push_feedback id feedback e)

unfoldable pub resolve_pending : Option PendingGate → ℕ → GateDecision → PipelineEngine → Step
unfolding decide_gate
resolve_pending none now d e = some (e, AdvanceResult.failed "No pending gate")
resolve_pending (some g) now d e = advance now (decide_gate d g.step_id e)

-- `pending_gate.take()` empties the field whatever it holds.
unfoldable pub resolve_gate : ℕ → GateDecision → PipelineEngine → Step
unfolding resolve_pending
resolve_gate now d e = resolve_pending e.pending_gate now d (record e { pending_gate = none })

unfoldable pub pause_from : PipelineStatus → PipelineEngine → PipelineEngine
pause_from (running _ _ _) e = record e { status = PipelineStatus.paused e.current_step }
pause_from _ e = e

unfoldable pub pause : PipelineEngine → PipelineEngine
unfolding pause_from
pause e = pause_from e.status e

unfoldable pub reset_counters : List FlowStep → HashMap String ℕ → HashMap String ℕ
reset_counters [] m = m
reset_counters (s ∷ steps) m = reset_counters steps (HashMap.insert s.id 0 m)

abbrev pub note_resumed : Option FlowStep → Option String → Option String
note_resumed none old = old
note_resumed (some step) old = some step.id

-- `resume` and `rerun` return an option: the inner `none` is "nothing done".
abbrev pub Restart : Type 0
Restart = Option (PipelineEngine × Option AdvanceResult)

abbrev pub started : Step → Restart
started none = none
started (some (e, r)) = some (e, some r)

unfoldable pub resume_from : PipelineStatus → ℕ → PipelineEngine → Restart
unfolding reset_counters
resume_from (PipelineStatus.paused _) now e = started (
    advance now (record e {
      loop_counters = reset_counters e.flow.steps e.loop_counters;
      resumed_step_id = note_resumed (get_elem? e.flow.steps e.current_step) e.resumed_step_id;
      status = idle;
    }))
resume_from _ now e = some (e, none)

unfoldable pub resume : ℕ → PipelineEngine → Restart
unfolding resume_from
resume now e = resume_from e.status now e

unfoldable pub rerun_step : Option FlowStep → ℕ → PipelineEngine → Restart
rerun_step none now e = some (e, none)
rerun_step (some step) now e = started (
    advance now (record e {
      loop_counters = HashMap.insert step.id 0 e.loop_counters;
      gate_feedback = HashMap.remove step.id e.gate_feedback;
      gate_resolved_for_step = none;
      status = idle;
    }))

unfoldable pub rerun_from : PipelineStatus → ℕ → PipelineEngine → Restart
unfolding rerun_step
rerun_from (PipelineStatus.failed _) now e =
    rerun_step (get_elem? e.flow.steps e.current_step) now e
rerun_from _ now e = some (e, none)

unfoldable pub rerun : ℕ → PipelineEngine → Restart
unfolding rerun_from
rerun now e = rerun_from e.status now e

unfoldable pub current_role_id : PipelineEngine → Option String
current_role_id e = do step ← get_elem? e.flow.steps e.current_step; some step.role_id

unfoldable pub current_step_id : PipelineEngine → Option String
current_step_id e = do step ← get_elem? e.flow.steps e.current_step; some step.id

unfoldable pub feedback_for : String → PipelineEngine → List String
feedback_for step_id e = HashMap.get_or step_id [] e.gate_feedback
