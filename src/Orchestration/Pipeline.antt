-- ===== src/Orchestration/Pipeline.antt =====
-- orchestration/pipeline.rs: the pipeline engine. An operation takes the clock where the source
-- reads it, and returns the new engine and the result; `none` is a panic (an index out of bounds).
-- Log lines are left out.
pub mod Submit
pub mod Control
pub mod Operations
pub mod Invariant
pub mod Submission
pub mod Preservation
pub mod Accounts
pub mod Ledger
pub mod Gates
pub mod Potential
pub mod Progress
use auto_ai.Common.{
  ℕ, String, List, [], ◌∷◌, Option, none, some, Bool, true, false, not, ◌&&◌, ◌==◌, string_eq, leb,
  if◌then◌else◌, length, get_elem?, ◌>>=◌,
}
use auto_ai.Common.Format.{format}
use auto_ai.Common.HashMap
use auto_ai.Common.HashMap.{HashMap}
use auto_ai.Orchestration.Budget.{TokenBudget, BudgetTracker, new_tracker, default_budget}
use auto_ai.Orchestration.Flow.{FlowSpec, FlowStep, GateType, auto, human}
use auto_ai.Orchestration.Handoff.{HandoffDocument}

pub data PipelineMode : Type 0 where
  auto_mode interactive : PipelineMode

pub data AdvanceResult : Type 0 where
  execute_step : String → String → AdvanceResult  -- step_id, role_id
  wait_for_human : String → AdvanceResult
  completed : AdvanceResult
  failed : String → AdvanceResult
  paused : String → String → AdvanceResult  -- step_id, reason

pub data GateDecision : Type 0 where
  approve : GateDecision
  reject : String → GateDecision  -- feedback

pub record StepRecord : Type 0 where
  pub step_id : String
  pub role_id : String
  pub handoff : Option HandoffDocument
  pub started_at : ℕ
  pub completed_at : ℕ
  pub iteration : ℕ

pub data PipelineStatus : Type 0 where
  idle : PipelineStatus
  running : String → String → ℕ → PipelineStatus  -- step_id, role_id, started_at
  waiting_for_human : String → ℕ → PipelineStatus  -- step_id, since
  completed : PipelineStatus
  failed : String → PipelineStatus
  paused : ℕ → PipelineStatus  -- at_step

unfoldable pub to_status_str : PipelineStatus → String
to_status_str idle = "idle"
to_status_str (running _ _ _) = "running"
to_status_str (waiting_for_human _ _) = "waiting_approval"
to_status_str PipelineStatus.completed = "completed"
to_status_str (PipelineStatus.failed _) = "failed"
to_status_str (PipelineStatus.paused _) = "paused"

pub record PendingGate : Type 0 where
  pub step_id : String
  pub since : ℕ

pub data NextStep : Type 0 where
  index : ℕ → NextStep
  complete : NextStep
  error : String → NextStep
  pause_at : String → String → NextStep  -- reason, resume_step_id

pub record PipelineEngine : Type 0 where
  pub flow : FlowSpec
  pub current_step : ℕ
  pub status : PipelineStatus
  pub run_id : String
  pub step_history : List StepRecord
  pub loop_counters : HashMap String ℕ  -- u32
  pub pending_gate : Option PendingGate
  pub gate_feedback : HashMap String (List String)
  pub gate_resolved_for_step : Option String
  pub resumed_step_id : Option String
  pub cumulative_tokens : ℕ  -- u64
  pub budget_tracker : BudgetTracker
  pub mode : PipelineMode

-- An operation's outcome.
abbrev pub Step : Type 0
Step = Option (PipelineEngine × AdvanceResult)

unfoldable pub with_budget : FlowSpec → String → TokenBudget → PipelineEngine
with_budget flow run_id run_budget = record {
  flow = flow;
  current_step = 0;
  status = idle;
  run_id = run_id;
  step_history = [];
  loop_counters = [];
  pending_gate = none;
  gate_feedback = [];
  gate_resolved_for_step = none;
  resumed_step_id = none;
  cumulative_tokens = 0;
  budget_tracker = new_tracker run_budget;
  mode = auto_mode;
}

unfoldable pub new_engine : FlowSpec → String → PipelineEngine
unfolding with_budget
new_engine flow run_id = with_budget flow run_id default_budget

unfoldable pub fail : String → PipelineEngine → PipelineEngine × AdvanceResult
fail msg e = (record e { status = PipelineStatus.failed msg }, AdvanceResult.failed msg)

abbrev pub is_human : GateType → Bool
is_human human = true
is_human auto = false

-- `o.as_ref() == Some(s)`
abbrev pub is_some_of : Option String → String → Bool
is_some_of none s = false
is_some_of (some t) s = t == s

-- The gate test of `advance`, and what it starts if no gate stands in the way.
unfoldable pub enter_step : ℕ → FlowStep → PipelineEngine → PipelineEngine × AdvanceResult
enter_step now step e =
    if is_human step.gate && not (is_some_of e.gate_resolved_for_step step.id)
    then (
      record e {
        status = waiting_for_human step.id now;
        pending_gate = some (record { step_id = step.id; since = now });
      },
      wait_for_human step.id,
    )
    else (
      record e { status = running step.id step.role_id now; resumed_step_id = none },
      execute_step step.id step.role_id,
    )

-- `advance` in the states `Idle` and `Running`.
unfoldable pub advance_current : ℕ → PipelineEngine → Step
unfolding enter_step
advance_current now e =
    if leb (length e.flow.steps) e.current_step
    then some (record e { status = PipelineStatus.completed }, AdvanceResult.completed)
    else do step ← get_elem? e.flow.steps e.current_step; some (enter_step now step e)

unfoldable pub paused_reason : String → String
paused_reason id = format ("Paused at '" ∷ id ∷ "'. Call resume() to continue." ∷ [])

-- `match &self.status` of `advance`.
unfoldable pub advance_from : PipelineStatus → ℕ → PipelineEngine → Step
unfolding advance_current paused_reason
advance_from PipelineStatus.completed now e = some (e, AdvanceResult.completed)
advance_from (PipelineStatus.failed msg) now e = some (e, AdvanceResult.failed msg)
advance_from (waiting_for_human step_id _) now e = some (e, wait_for_human step_id)
advance_from (PipelineStatus.paused at_step) now e = do
  step ← get_elem? e.flow.steps at_step
  some (e, AdvanceResult.paused step.id (paused_reason step.id))
advance_from idle now e = advance_current now e
advance_from (running _ _ _) now e = advance_current now e

unfoldable pub advance : ℕ → PipelineEngine → Step
unfolding advance_from
advance now e = advance_from e.status now e
