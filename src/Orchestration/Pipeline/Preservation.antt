-- ===== src/Orchestration/Pipeline/Preservation.antt =====
-- The operations of the engine, and its invariant.
use auto_ai.Common.{
  ℕ, ◌≤◌, ◌≡◌, refl, sym, ◌∙◌, String, List, [], ◌∷◌, Option, none, some, arith, length, get_elem?,
  lt_of_get_elem?, ◌>>=◌, string_eq,
}
use auto_ai.Orchestration.Budget.{TokenBudget}
use auto_ai.Orchestration.Flow.{FlowStep, FlowSpec}
use auto_ai.Orchestration.Pipeline.{
  PipelineStatus, idle, running, waiting_for_human, PipelineEngine, PendingGate, Step, GateDecision,
  approve, reject, fail, with_budget,
}
use auto_ai.Orchestration.Pipeline.Control.{
  resolve_gate, resolve_pending, decide_gate, pause, pause_from, resume, resume_from, rerun,
  rerun_from, rerun_step, started,
}
use auto_ai.Orchestration.Pipeline.Submission.{submit_handoff-Sound}
use auto_ai.Orchestration.Pipeline.Operations.{
  Operation, advances, submits, resolves, pauses, resumes, reruns, fails, perform, perform_all,
  state_of,
}
use auto_ai.Orchestration.Pipeline.Invariant.{Fits, IsValid, Sound, Fits-within, advance-Sound}

-- What a history needs of a step: an engine comes back, and it is valid.
abbrev pub Valid? {ℓ} : {R : Type ℓ} → Option (PipelineEngine × R) → Type 0
Valid? none = ⊥
Valid? (some (e, _)) = IsValid e

abbrev valid_of : (s : Step) → Sound s → Valid? s
valid_of none h = h
valid_of (some (e, r)) h = h.0

-- Taking an empty gate changes nothing that validity reads.
Fits-take_none :
    (st : PipelineStatus) (e : PipelineEngine)
    → e.pending_gate ≡ none
    → Fits st e
    → Fits st (record e { pending_gate = none })
Fits-take_none idle e q h = h
Fits-take_none (running _ _ _) e q h = h
Fits-take_none (waiting_for_human _ _) e q (s, at, same, p) = (s, at, same, sym q ∙ p)
Fits-take_none PipelineStatus.completed e q h = h
Fits-take_none (PipelineStatus.failed _) e q h = h
Fits-take_none (PipelineStatus.paused _) e q h = h

resolve_gate-Valid? :
    (now : ℕ) (d : GateDecision) (e : PipelineEngine) → IsValid e → Valid? (resolve_gate now d e)
unfolding resolve_gate
resolve_gate-Valid? now d e v = by_gate e.pending_gate d refl
  where
    taken : PipelineEngine
    taken = record e { pending_gate = none }

    by_gate :
        (g : Option PendingGate) (d : GateDecision)
        → e.pending_gate ≡ g
        → Valid? (resolve_pending g now d taken)
    by_gate none d q = Fits-take_none e.status e q v
    by_gate (some g) approve q =
        valid_of _
          (advance-Sound now (decide_gate approve g.step_id taken) (Fits-within e.status e v))
    by_gate (some g) (reject text) q =
        valid_of _
          (advance-Sound now (decide_gate (reject text) g.step_id taken) (Fits-within e.status e v))

pause-IsValid : (e : PipelineEngine) → IsValid e → IsValid (pause e)
unfolding pause pause_from
pause-IsValid e v = by_status e.status refl v
  where
    by_status : (st : PipelineStatus) → e.status ≡ st → Fits st e → IsValid (pause_from st e)
    by_status (running _ _ _) q (s, at, _, _, _) =
        (refl, lt_of_get_elem? e.flow.steps e.current_step at)
    by_status idle q f = v
    by_status (waiting_for_human _ _) q f = v
    by_status PipelineStatus.completed q f = v
    by_status (PipelineStatus.failed _) q f = v
    by_status (PipelineStatus.paused _) q f = v

abbrev restarted : (s : Step) → Sound s → Valid? (started s)
restarted none h = h
restarted (some (e, r)) h = h.0

resume-Valid? : (now : ℕ) (e : PipelineEngine) → IsValid e → Valid? (resume now e)
unfolding resume resume_from
resume-Valid? now e v = by_status e.status refl v
  where
    by_status : (st : PipelineStatus) → e.status ≡ st → Fits st e → Valid? (resume_from st now e)
    by_status (PipelineStatus.paused k) q f =
        restarted _ (advance-Sound now _ (Fits-within (PipelineStatus.paused k) e f))
    by_status (running _ _ _) q f = v
    by_status idle q f = v
    by_status (waiting_for_human _ _) q f = v
    by_status PipelineStatus.completed q f = v
    by_status (PipelineStatus.failed _) q f = v

rerun-Valid? : (now : ℕ) (e : PipelineEngine) → IsValid e → Valid? (rerun now e)
unfolding rerun rerun_from rerun_step
rerun-Valid? now e v = by_status e.status refl v
  where
    by_step :
        (o : Option FlowStep) → e.current_step ≤ length e.flow.steps → Valid? (rerun_step o now e)
    by_step none h = v
    by_step (some s) h = restarted _ (advance-Sound now _ h)

    by_status : (st : PipelineStatus) → e.status ≡ st → Fits st e → Valid? (rerun_from st now e)
    by_status (PipelineStatus.failed msg) q f = by_step (get_elem? e.flow.steps e.current_step) f
    by_status (PipelineStatus.paused _) q f = v
    by_status (running _ _ _) q f = v
    by_status idle q f = v
    by_status (waiting_for_human _ _) q f = v
    by_status PipelineStatus.completed q f = v

-- The engine after an operation, if it did not panic, is valid.
abbrev pub Holds? : (PipelineEngine → Type 0) → Option PipelineEngine → Type 0
Holds? P none = ⊥
Holds? P (some e) = P e

abbrev kept {ℓ} :
    {R : Type ℓ} (o : Option (PipelineEngine × R)) → Valid? o → Holds? IsValid (state_of o)
kept none h = h
kept (some (e, r)) h = h

-- One operation on a valid engine.
pub perform-IsValid :
    (o : Operation) (e : PipelineEngine) → IsValid e → Holds? IsValid (perform o e)
unfolding perform fail
perform-IsValid (advances now) e v = kept _ (valid_of _ (advance-Sound now e v))
perform-IsValid (submits now h) e v = kept _ (valid_of _ (submit_handoff-Sound now h e v))
perform-IsValid (resolves now d) e v = kept _ (resolve_gate-Valid? now d e v)
perform-IsValid pauses e v = pause-IsValid e v
perform-IsValid (resumes now) e v = kept _ (resume-Valid? now e v)
perform-IsValid (reruns now) e v = kept _ (rerun-Valid? now e v)
perform-IsValid (fails msg) e v = Fits-within e.status e v

Holds?-bind :
    (P Q : PipelineEngine → Type 0) (o : Option PipelineEngine)
    (f : PipelineEngine → Option PipelineEngine)
    → Holds? P o
    → ((e : PipelineEngine) → P e → Holds? Q (f e))
    → Holds? Q (o >>= f)
Holds?-bind P Q none f h k = h
Holds?-bind P Q (some e) f h k = k e h

pub perform_all-IsValid :
    (os : List Operation) (e : PipelineEngine) → IsValid e → Holds? IsValid (perform_all os e)
unfolding perform_all
perform_all-IsValid [] e v = v
perform_all-IsValid (o ∷ os) e v =
    Holds?-bind IsValid IsValid (perform o e) (perform_all os) (perform-IsValid o e v)
      (perform_all-IsValid os)

-- No sequence of operations on a new engine panics, whatever its flow, and the engine that it
-- leaves is valid: the status fits the position in the flow, which is within it.
pub perform_all-with_budget_IsValid :
    (os : List Operation) (flow : FlowSpec) (run_id : String) (b : TokenBudget)
    → Holds? IsValid (perform_all os (with_budget flow run_id b))
unfolding with_budget
perform_all-with_budget_IsValid os flow run_id b = perform_all-IsValid os _ (omega arith)
