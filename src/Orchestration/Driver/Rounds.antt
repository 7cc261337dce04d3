-- ===== src/Orchestration/Driver/Rounds.antt =====
-- What one round of the driver does to the measure of the work left.
use auto_ai.Common.{
  ℕ, ◌+◌, ◌*◌, ◌≤◌, ◌<◌, ◌≡◌, refl, ap, String, List, none, some, arith, inl, inr, string_eq, ◌⊎◌,
}
use auto_ai.Orchestration.Budget.{BudgetAction, nothing, warning, limit_reached, check}
use auto_ai.Orchestration.Flow.{FlowSpec}
use auto_ai.Orchestration.Pipeline.{
  AdvanceResult, execute_step, wait_for_human, PipelineStatus, idle, running, waiting_for_human,
  PipelineEngine, Step, advance,
}
use auto_ai.Orchestration.Pipeline.Submit.{submit_handoff}
use auto_ai.Orchestration.Pipeline.Invariant.{IsValid, Sound, advance-Sound}
use auto_ai.Orchestration.Pipeline.Submission.{submit_handoff-Sound}
use auto_ai.Orchestration.Pipeline.Gates.{
  advance-running, resolve_gate-waiting, decided-keeps, run_step, decided,
}
use auto_ai.Orchestration.Pipeline.Potential.{potential, potential_of}
use auto_ai.Orchestration.Pipeline.Progress.{
  IsCounted, IsBounded, Lowers, submit_handoff-Lowers, Keeps, advance-Keeps,
}
use auto_ai.Orchestration.Driver.{
  PipelineEvent, step_started, step_completed, AgentResult, AgentError, Built, refused, built, App,
  build_handoff,
}
use auto_ai.Orchestration.Driver.Loop.{
  DriveState, Outcome, again, done, fault, crash, emit, warn_budget, at_gate, decide, after_gate,
  input_of, after_submit, submitted, finish_step, after_run, run_built, execute, dispatch, advanced,
  round, advance_time, submit_time, resolve_time,
}

pub record IsReady (e : PipelineEngine) : Type 0 where
  pub valid : IsValid e
  pub counted : IsCounted e.loop_counters
  pub bounded : IsBounded e.flow

-- A round that starts at a running step executes it; any other may only pass a gate.
abbrev pub extra : PipelineStatus → ℕ
extra (running _ _ _) = 0
extra _ = 1

abbrev pub rank : PipelineEngine → ℕ
rank e = 2 * potential e + extra e.status

-- Another round starts from less; the other outcomes end the loop.
abbrev pub Falls : ℕ → Outcome → Type 0
Falls k (again s) = IsReady s.engine × (rank s.engine < k)
Falls k (done s) = Unit {0}
Falls k (fault s e) = Unit {0}
Falls k crash = ⊥

pub Falls-mono : (k k' : ℕ) (o : Outcome) → k ≤ k' → Falls k o → Falls k' o
Falls-mono k k' (again s) h (v, lt) = (v, omega arith)
Falls-mono k k' (done s) h f = tt
Falls-mono k k' (fault s e) h f = tt
Falls-mono k k' crash h f = f

module _ {J : Type 0} (app : App J) where
  at_gate-Falls :
      (k : ℕ) (id : String) (since : ℕ) (s : DriveState)
      → s.engine.status ≡ waiting_for_human id since
      → IsReady s.engine
      → 2 * potential s.engine < k
      → Falls k (at_gate app id s)
  unfolding at_gate after_gate
  at_gate-Falls k id since s q v h =
      let d = decide app app.gate_handler s.round id in
      let now = resolve_time app s in
      let (t, at, same, result) = resolve_gate-waiting now d s.engine id since v.valid q in
      let (ok, counters, flow, current) = decided-keeps now d t s.engine at in
      let same_potential : potential (run_step now t (decided d t.id s.engine))
          ≡ potential s.engine =
        λ i. potential_of (counters i) (flow i) (current i) in
      rw result (
        record { valid = ok; counted = rw counters v.counted; bounded = rw flow v.bounded },
        omega (arith, same_potential),
      )

  -- After a step was submitted from potential `p`, the flow being `f`.
  after_submit-Falls :
      (p : ℕ) (f : FlowSpec) (r : AdvanceResult) (s : DriveState)
      → IsBounded f
      → Sound (some (s.engine, r))
      → Lowers f p (some (s.engine, r))
      → Falls (2 * p) (after_submit app r s)
  unfolding after_submit
  after_submit-Falls p f (execute_step id role) s b (v, (since, q)) l = (
    record { valid = v; counted = l.counted; bounded = rw l.same_flow b },
    omega (arith, l.lower, ap extra q),
  )
  after_submit-Falls p f (wait_for_human id) s b (v, (since, q)) l =
      at_gate-Falls (2 * p) id since s q
        (record { valid = v; counted = l.counted; bounded = rw l.same_flow b })
        (omega (arith, l.lower))
  after_submit-Falls p f AdvanceResult.completed s b v l = tt
  after_submit-Falls p f (AdvanceResult.failed msg) s b v l = tt
  after_submit-Falls p f (AdvanceResult.paused id why) s b v l = tt

  submitted-Falls :
      (p : ℕ) (f : FlowSpec) (role : String) (s : DriveState) (x : Step)
      → IsBounded f
      → Sound x
      → Lowers f p x
      → Falls (2 * p) (submitted app role s x)
  unfolding submitted
  submitted-Falls p f role s none b v l = v
  submitted-Falls p f role s (some (e, r)) b v l = warned (check e.budget_tracker role)
    where
      told : DriveState
      told = record s { engine = e }

      warned : (a : BudgetAction) → Falls (2 * p) (after_submit app r (warn_budget a told))
      warned nothing = after_submit-Falls p f r told b v l
      warned (warning n) = after_submit-Falls p f r (warn_budget (warning n) told) b v l
      warned limit_reached = after_submit-Falls p f r told b v l

  finish_step-Falls :
      (id role : String) (result : AgentResult J) (content : String) (since : ℕ) (s : DriveState)
      → s.engine.status ≡ running id role since
      → IsReady s.engine
      → Falls (2 * potential s.engine) (finish_step app id role result content s)
  unfolding finish_step
  finish_step-Falls id role result content since s q v =
      let h = build_handoff app role result content in
      submitted-Falls (potential s.engine) s.engine.flow h.from
        (emit (step_completed id h) (record s { last_handoff = some h }))
        (submit_handoff (submit_time app s) h s.engine) v.bounded
        (submit_handoff-Sound (submit_time app s) h s.engine v.valid)
        (submit_handoff-Lowers id role since (submit_time app s) h s.engine q v.valid v.bounded
          v.counted)

  -- A round that executes a running step.
  execute-Falls :
      (task id role : String) (since : ℕ) (s : DriveState)
      → s.engine.status ≡ running id role since
      → IsReady s.engine
      → Falls (2 * potential s.engine) (execute app task id role s)
  unfolding execute run_built after_run
  execute-Falls task id role since s q v = by_agent (app.build_agent s.round role s.last_handoff)
    where
      at_end :
          (content : String) (evs : List PipelineEvent) (o : AgentResult J ⊎ AgentError)
          → Falls (2 * potential s.engine) (elim o [
            | inl result ↦ finish_step app id role result content (record s { events = evs })
            | inr e ↦ fault (record s { events = evs }) e
          ])
      at_end content evs (inl result) =
          finish_step-Falls id role result content since (record s { events = evs }) q v
      at_end content evs (inr e) = tt

      by_agent :
          (a : Built J)
          → Falls
              (2 * potential s.engine)
              (run_built app task id role a (emit (step_started id role) s))
      by_agent (refused msg) = tt
      by_agent (built agent) = at_end _ _ (agent (input_of task s.last_handoff)).outcome

  -- The outer `match`, on what `advance` made of the engine `e`.
  advanced-Falls :
      (task : String) (s : DriveState) (x : Step)
      → IsReady s.engine
      → Sound x
      → Keeps s.engine x
      → ((e' : PipelineEngine) (id : String)
          → x ≡ some (e', wait_for_human id)
          → extra s.engine.status ≡ 1)
      → Falls (rank s.engine) (advanced app task s x)
  unfolding advanced dispatch
  advanced-Falls task s none v sound kept gate = sound
  advanced-Falls task s (some (e, execute_step id role)) v (ok, (since, q)) kept gate =
      let same : potential e ≡ potential s.engine =
        λ i. potential_of (kept.0 i) (kept.1 i) (kept.2 i) in
      Falls-mono (2 * potential e) (rank s.engine) _ (omega (arith, same)) (
        execute-Falls task id role since (record s { engine = e }) q
          (record { valid = ok; counted = rw kept.0 v.counted; bounded = rw kept.1 v.bounded }))
  advanced-Falls task s (some (e, wait_for_human id)) v (ok, (since, q)) kept gate =
      at_gate-Falls (rank s.engine) id since (record s { engine = e }) q
        (record { valid = ok; counted = rw kept.0 v.counted; bounded = rw kept.1 v.bounded })
        (let same : potential e ≡ potential s.engine =
            λ i. potential_of (kept.0 i) (kept.1 i) (kept.2 i) in
          omega (arith, gate e id refl, same))
  advanced-Falls task s (some (e, AdvanceResult.completed)) v sound kept gate = tt
  advanced-Falls task s (some (e, AdvanceResult.failed msg)) v sound kept gate = tt
  advanced-Falls task s (some (e, AdvanceResult.paused id why)) v sound kept gate = tt

  -- A round never panics, and a further round starts from less.
  pub round-Falls :
      (task : String) (s : DriveState) → IsReady s.engine → Falls (rank s.engine) (round app task s)
  unfolding round
  round-Falls task s v =
      advanced-Falls task s (advance now s.engine) v (advance-Sound now s.engine v.valid)
        (advance-Keeps now s.engine) (by_status s.engine.status refl)
    where
      now : ℕ
      now = advance_time app s

      by_status :
          (st : PipelineStatus)
          → s.engine.status ≡ st
          → (e' : PipelineEngine) (id : String)
          → advance now s.engine ≡ some (e', wait_for_human id)
          → extra s.engine.status ≡ 1
      by_status (running i r since) q e' id x =
          let (t, at, same, ran) = advance-running now s.engine i r since v.valid q in cc
      by_status idle q e' id x = ap extra q
      by_status (waiting_for_human _ _) q e' id x = ap extra q
      by_status PipelineStatus.completed q e' id x = ap extra q
      by_status (PipelineStatus.failed _) q e' id x = ap extra q
      by_status (PipelineStatus.paused _) q e' id x = ap extra q
