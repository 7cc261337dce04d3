-- ===== src/Orchestration/Driver/Loop.antt =====
-- orchestration/driver.rs: `drive`. A round is one pass of its `loop`; the loop takes the number of
-- rounds as fuel (Termination has the bound that is enough).
use auto_ai.Common.{
  ℕ, zero, suc, ◌+◌, ◌*◌, String, List, [], ◌∷◌, ◌++◌, Option, none, some, inl, inr,
}
use auto_ai.Orchestration.Budget.{BudgetAction, nothing, warning, limit_reached, check}
use auto_ai.Orchestration.Flow.{FlowSpec}
use auto_ai.Orchestration.Handoff.{HandoffDocument, render}
use auto_ai.Orchestration.Pipeline.{
  AdvanceResult, execute_step, wait_for_human, GateDecision, approve, PipelineEngine, Step, advance,
  new_engine,
}
use auto_ai.Orchestration.Pipeline.Submit.{submit_handoff}
use auto_ai.Orchestration.Pipeline.Control.{resolve_gate}
use auto_ai.Orchestration.Driver.{
  PipelineEvent, step_started, step_completed, gate_waiting, budget_warning, forward, collect,
  AgentResult, AgentError, config, Run, Built, refused, built, App, build_handoff,
}

-- The variables of the loop: the engine, the last handoff, the events so far and the round's number.
pub record DriveState : Type 0 where
  pub engine : PipelineEngine
  pub last_handoff : Option HandoffDocument
  pub events : List PipelineEvent
  pub round : ℕ

abbrev pub emit : PipelineEvent → DriveState → DriveState
emit ev s = record s { events = s.events ++ ev ∷ [] }

-- What a round comes to: another round, the value that `drive` returns, or a panic.
pub data Outcome : Type 0 where
  again : DriveState → Outcome
  done : DriveState → Outcome  -- `Ok(())`
  fault : DriveState → AgentError → Outcome  -- `Err(e)`
  crash : Outcome

-- To the next pass of the loop, or out of it.
abbrev pub continue : (DriveState → Outcome) → Outcome → Outcome
continue loop (again s) = loop s
continue loop (done s) = done s
continue loop (fault s e) = fault s e
continue loop crash = crash

-- The first step gets the task, a later one the last handoff in words.
abbrev pub input_of : String → Option HandoffDocument → String
input_of task none = task
input_of task (some h) = render h

abbrev pub warn_budget : BudgetAction → DriveState → DriveState
warn_budget (warning remaining) s = emit (budget_warning remaining) s
warn_budget nothing s = s
warn_budget limit_reached s = s

module _ {J : Type 0} (app : App J) where
  -- The three times at which a round reads the clock.
  abbrev pub advance_time : DriveState → ℕ
  advance_time s = app.clock (3 * s.round)

  abbrev pub submit_time : DriveState → ℕ
  submit_time s = app.clock (3 * s.round + 1)

  abbrev pub resolve_time : DriveState → ℕ
  resolve_time s = app.clock (3 * s.round + 2)

  abbrev pub next_round : PipelineEngine → DriveState → DriveState
  next_round e s = record s { engine = e; round = s.round + 1 }

  unfoldable pub decide : Option (ℕ → String → GateDecision) → ℕ → String → GateDecision
  decide none round step_id = approve
  decide (some handler) round step_id = handler round step_id

  unfoldable pub after_gate : DriveState → Step → Outcome
  after_gate s none = crash
  after_gate s (some (e, AdvanceResult.failed msg)) =
      fault (emit (PipelineEvent.failed msg) (record s { engine = e }))
        (config "gate resolution failed")
  after_gate s (some (e, _)) = again (next_round e s)

  -- `WaitForHuman`, from either `match`.
  unfoldable pub at_gate : String → DriveState → Outcome
  unfolding decide after_gate
  at_gate step_id s =
      after_gate (emit (gate_waiting step_id) s)
        (resolve_gate (resolve_time s) (decide app.gate_handler s.round step_id) s.engine)

  -- `match next`, after a step's handoff was submitted.
  unfoldable pub after_submit : AdvanceResult → DriveState → Outcome
  unfolding at_gate
  after_submit AdvanceResult.completed s = done (emit PipelineEvent.completed s)
  after_submit (AdvanceResult.failed msg) s = fault (emit (PipelineEvent.failed msg) s) (config msg)
  after_submit (AdvanceResult.paused step_id reason) s =
      done (emit (PipelineEvent.paused step_id reason) s)
  after_submit (wait_for_human step_id) s = at_gate step_id s
  after_submit (execute_step _ _) s = again (next_round s.engine s)

  unfoldable pub submitted : String → DriveState → Step → Outcome
  unfolding after_submit
  submitted role s none = crash
  submitted role s (some (e, r)) =
      after_submit r (warn_budget (check e.budget_tracker role) (record s { engine = e }))

  -- The agent's result becomes the handoff, which is told, kept and submitted.
  unfoldable pub finish_step : String → String → AgentResult J → String → DriveState → Outcome
  unfolding submitted
  finish_step step_id role_id result content s =
      let h = build_handoff app role_id result content in
      let told = emit (step_completed step_id h) (record s { last_handoff = some h }) in
      submitted h.from told (submit_handoff (submit_time s) h s.engine)

  unfoldable pub after_run : String → String → Run J → DriveState → Outcome
  unfolding finish_step
  after_run step_id role_id r s =
      let told = record s { events = s.events ++ forward r.stream } in
      elim r.outcome [
        | inl result ↦ finish_step step_id role_id result (collect r.stream) told
        | inr e ↦ fault told e
      ]

  unfoldable pub run_built : String → String → String → Built J → DriveState → Outcome
  unfolding after_run
  run_built task step_id role_id (refused msg) s = fault s (config msg)
  run_built task step_id role_id (built a) s =
      after_run step_id role_id (a (input_of task s.last_handoff)) s

  -- `ExecuteStep`.
  unfoldable pub execute : String → String → String → DriveState → Outcome
  unfolding run_built
  execute task step_id role_id s =
      run_built task step_id role_id (app.build_agent s.round role_id s.last_handoff)
        (emit (step_started step_id role_id) s)

  -- The outer `match result`.
  unfoldable pub dispatch : String → AdvanceResult → DriveState → Outcome
  unfolding execute at_gate
  dispatch task (execute_step step_id role_id) s = execute task step_id role_id s
  dispatch task AdvanceResult.completed s = done (emit PipelineEvent.completed s)
  dispatch task (AdvanceResult.failed msg) s =
      fault (emit (PipelineEvent.failed msg) s) (config msg)
  dispatch task (AdvanceResult.paused step_id reason) s =
      done (emit (PipelineEvent.paused step_id reason) s)
  dispatch task (wait_for_human step_id) s = at_gate step_id s

  unfoldable pub advanced : String → DriveState → Step → Outcome
  unfolding dispatch
  advanced task s none = crash
  advanced task s (some (e, r)) = dispatch task r (record s { engine = e })

  unfoldable pub round : String → DriveState → Outcome
  unfolding advanced
  round task s = advanced task s (advance (advance_time s) s.engine)

  -- `again` is what is left when the fuel runs out.
  unfoldable pub drive : ℕ → String → DriveState → Outcome
  drive zero task s = again s
  drive (suc fuel) task s = continue (drive fuel task) (round task s)

-- `PipelineDriver::new`, at the start of `drive`.
unfoldable pub new_drive : FlowSpec → String → DriveState
new_drive flow run_id = record {
  engine = new_engine flow run_id;
  last_handoff = none;
  events = [];
  round = 0;
}
