-- ===== src/Orchestration/Pipeline/Ledger.antt =====
-- The operations, and the accounts of the run.
use auto_ai.Common.{
  [], ◌∷◌, none, some, refl, sym, subst, arith, ◌>>=◌, List, String, ℕ, Option, get_elem?, ◌≡◌,
  string_eq,
}
use auto_ai.Orchestration.Budget.{TokenBudget, new_tracker}
use auto_ai.Orchestration.Flow.{FlowSpec, FlowStep}
use auto_ai.Orchestration.Pipeline.{
  PipelineEngine, PipelineStatus, GateDecision, approve, reject, idle, running, waiting_for_human,
  PendingGate, Step, advance, with_budget, fail,
}
use auto_ai.Orchestration.Pipeline.Operations.{
  Operation, advances, submits, resolves, pauses, resumes, reruns, fails, perform, perform_all,
  state_of,
}
use auto_ai.Orchestration.Pipeline.Preservation.{Holds?, perform_all-with_budget_IsValid}
use auto_ai.Orchestration.Pipeline.Accounts.{
  Accounted, Leaves, books, same_books, Agree, submit_handoff-Accounted, advance-books,
}
use auto_ai.Orchestration.Pipeline.Control.{
  started, resume, pause, resolve_gate, rerun, resolve_pending, rerun_from, pause_from, resume_from,
  decide_gate, rerun_step,
}
use auto_ai.Orchestration.Pipeline.Invariant.{IsValid}

module _ (now : ℕ) (e : PipelineEngine) (a : Accounted e) where
  -- Advancing from an engine with the same books.
  advances-Accounted :
      (moved : PipelineEngine) → books moved ≡ books e → Leaves Accounted (advance now moved)
  advances-Accounted moved q =
      same_books (advance now moved) moved (subst Agree (sym q) a) (advance-books now moved)

  resolve_gate-Accounted : (d : GateDecision) → Leaves Accounted (resolve_gate now d e)
  unfolding resolve_gate
  resolve_gate-Accounted d = by_gate e.pending_gate d
    where
      taken : PipelineEngine
      taken = record e { pending_gate = none }

      by_gate :
          (g : Option PendingGate) (d : GateDecision)
          → Leaves Accounted (resolve_pending g now d taken)
      by_gate none d = a
      by_gate (some g) approve = advances-Accounted (decide_gate approve g.step_id taken) refl
      by_gate (some g) (reject text) =
          advances-Accounted (decide_gate (reject text) g.step_id taken) refl

  started-Accounted : (s : Step) → Leaves Accounted s → Leaves Accounted (started s)
  started-Accounted none h = tt
  started-Accounted (some _) h = h

  resume-Accounted : Leaves Accounted (resume now e)
  unfolding resume resume_from
  resume-Accounted = by_status e.status
    where
      by_status : (st : PipelineStatus) → Leaves Accounted (resume_from st now e)
      by_status (PipelineStatus.paused _) = started-Accounted _ (advances-Accounted _ refl)
      by_status (running _ _ _) = a
      by_status idle = a
      by_status (waiting_for_human _ _) = a
      by_status PipelineStatus.completed = a
      by_status (PipelineStatus.failed _) = a

  rerun-Accounted : Leaves Accounted (rerun now e)
  unfolding rerun rerun_from rerun_step
  rerun-Accounted = by_status e.status
    where
      by_step : (o : Option FlowStep) → Leaves Accounted (rerun_step o now e)
      by_step none = a
      by_step (some s) = started-Accounted _ (advances-Accounted _ refl)

      by_status : (st : PipelineStatus) → Leaves Accounted (rerun_from st now e)
      by_status (PipelineStatus.failed _) = by_step (get_elem? e.flow.steps e.current_step)
      by_status (PipelineStatus.paused _) = a
      by_status (running _ _ _) = a
      by_status idle = a
      by_status (waiting_for_human _ _) = a
      by_status PipelineStatus.completed = a

pause-Accounted : (e : PipelineEngine) → Accounted e → Accounted (pause e)
unfolding pause pause_from
pause-Accounted e a = by_status e.status
  where
    by_status : (st : PipelineStatus) → Accounted (pause_from st e)
    by_status (running _ _ _) = a
    by_status idle = a
    by_status (waiting_for_human _ _) = a
    by_status PipelineStatus.completed = a
    by_status (PipelineStatus.failed _) = a
    by_status (PipelineStatus.paused _) = a

-- Of the engine that is left, if one is.
abbrev Left : Option PipelineEngine → Type 0
Left none = Unit
Left (some e) = Accounted e

Left-of {ℓ} :
    {R : Type ℓ} (o : Option (PipelineEngine × R)) → Leaves Accounted o → Left (state_of o)
Left-of none h = tt
Left-of (some _) h = h

perform-Accounted : (o : Operation) (e : PipelineEngine) → Accounted e → Left (perform o e)
unfolding perform fail
perform-Accounted (advances now) e a = Left-of _ (advances-Accounted now e a e refl)
perform-Accounted (submits now h) e a = Left-of _ (submit_handoff-Accounted now h e a)
perform-Accounted (resolves now d) e a = Left-of _ (resolve_gate-Accounted now e a d)
perform-Accounted pauses e a = pause-Accounted e a
perform-Accounted (resumes now) e a = Left-of _ (resume-Accounted now e a)
perform-Accounted (reruns now) e a = Left-of _ (rerun-Accounted now e a)
perform-Accounted (fails msg) e a = a

Left-bind :
    (f : PipelineEngine → Option PipelineEngine)
    → ((e : PipelineEngine) → Accounted e → Left (f e))
    → (o : Option PipelineEngine) → Left o
    → Left (o >>= f)
Left-bind f k none h = tt
Left-bind f k (some e) h = k e h

perform_all-Accounted :
    (os : List Operation) (e : PipelineEngine) → Accounted e → Left (perform_all os e)
unfolding perform_all
perform_all-Accounted [] e a = a
perform_all-Accounted (o ∷ os) e a =
    Left-bind (perform_all os) (perform_all-Accounted os) (perform o e) (perform-Accounted o e a)

-- After any sequence of operations on a new engine, the token total of the engine, and that of its budget
-- tracker, is the sum of the tokens of the handoffs in its history, on 64 bits.
pub perform_all-with_budget-Accounted :
    (os : List Operation) (flow : FlowSpec) (run_id : String) (b : TokenBudget)
    → Holds? Accounted (perform_all os (with_budget flow run_id b))
unfolding with_budget new_tracker
perform_all-with_budget-Accounted os flow run_id b =
    both (perform_all os (with_budget flow run_id b))
      (perform_all-with_budget_IsValid os flow run_id b)
      (perform_all-Accounted os _ (omega arith, refl))
  where
    both : (o : Option PipelineEngine) → Holds? IsValid o → Left o → Holds? Accounted o
    both none v h = elim v [ ]
    both (some e) v h = h
