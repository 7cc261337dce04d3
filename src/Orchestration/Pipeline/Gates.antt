-- ===== src/Orchestration/Pipeline/Gates.antt =====
-- Human gates: the decisions, and the steps that wait for them.
use auto_ai.Common.{
  ℕ, ◌≡◌, refl, sym, ap, subst, ◌∙◌, String, List, [], ◌∷◌, ◌++◌, none, some, true, false, arith,
  length, lt_of_get_elem?, string_eq, ◌==◌, if◌then◌else◌, append-nil, eq_of_beq, Bool-cases, leb,
  inl, inr, beq-true_self,
}
use auto_ai.Common.HashMap
use auto_ai.Common.HashMap.{HashMap, get-insert}
use auto_ai.Orchestration.Flow.{FlowStep}
use auto_ai.Orchestration.Pipeline.{
  execute_step, PipelineStatus, running, waiting_for_human, PipelineEngine, PendingGate,
  GateDecision, approve, reject, advance, advance_from, advance_current, enter_step, is_human,
  is_some_of, fail,
}
use auto_ai.Orchestration.Pipeline.Submit.{push_feedback}
use auto_ai.Orchestration.Pipeline.Control.{
  resolve_gate, resolve_pending, decide_gate, feedback_for,
}
use auto_ai.Orchestration.Pipeline.Invariant.{At, Fits, IsValid}

-- The engine after a gate is passed: the step runs.
abbrev pub run_step : ℕ → FlowStep → PipelineEngine → PipelineEngine
run_step now s e = record e { status = running s.id s.role_id now; resumed_step_id = none }

-- A step whose gate is resolved, or that has none, runs.
enter_step-passed :
    (now : ℕ) (s : FlowStep) (e : PipelineEngine)
    → (is_human s.gate ≡ true → e.gate_resolved_for_step ≡ some s.id)
    → enter_step now s e ≡ (run_step now s e, execute_step s.id s.role_id)
unfolding enter_step
enter_step-passed now s e h = elim (Bool-cases (is_human s.gate)) [
  | inl human_gate ↦ rw (human_gate, h human_gate, is_some_of, beq-true_self s.id)
  | inr auto_gate ↦ rw auto_gate
]

advance_current-passed :
    (now : ℕ) (s : FlowStep) (e : PipelineEngine)
    → At e s
    → (is_human s.gate ≡ true → e.gate_resolved_for_step ≡ some s.id)
    → advance_current now e ≡ some (run_step now s e, execute_step s.id s.role_id)
unfolding advance_current
advance_current-passed now s e at h =
    let inside : leb (length e.flow.steps) e.current_step ≡ false =
      ground (arith, lt_of_get_elem? e.flow.steps e.current_step at) in
    rw (inside, at) (ap some (enter_step-passed now s e h))

-- Advancing a running engine executes the same step once more.
pub advance-running :
    (now : ℕ) (e : PipelineEngine) (id role : String) (since : ℕ)
    → IsValid e
    → e.status ≡ running id role since
    → (s : FlowStep) × At e s
      × (s.id ≡ id)
      × (advance now e ≡ some (run_step now s e, execute_step s.id s.role_id))
unfolding advance advance_from
advance-running now e id role since v q =
    let (s, at, same, _, passed) = subst (λ st. Fits st e) q v in
    (
      s,
      at,
      same,
      subst (λ st. advance_from st now e ≡ some (run_step now s e, execute_step s.id s.role_id))
          (sym q) (advance_current-passed now s e at (λ h. passed h ∙ ap some (sym same))),
    )

-- What a decision adds to the feedback of the gate's step.
abbrev pub feedback_of : GateDecision → List String
feedback_of approve = []
feedback_of (reject text) = text ∷ []

-- The engine on which a decision lets the step run.
abbrev pub decided : GateDecision → String → PipelineEngine → PipelineEngine
unfolding decide_gate
decided d id e = decide_gate d id (record e { pending_gate = none })

decide_gate-passed :
    (now : ℕ) (d : GateDecision) (s : FlowStep) (e : PipelineEngine)
    → At e s
    → advance now (decide_gate d s.id e)
      ≡ some (run_step now s (decide_gate d s.id e), execute_step s.id s.role_id)
unfolding decide_gate advance advance_from
decide_gate-passed now approve s e at =
    advance_current-passed now s (decide_gate approve s.id e) at (λ h. refl)
decide_gate-passed now (reject text) s e at =
    advance_current-passed now s (decide_gate (reject text) s.id e) at (λ h. refl)

-- Either decision at a gate runs the step that waited.
pub resolve_gate-waiting :
    (now : ℕ) (d : GateDecision) (e : PipelineEngine) (id : String) (since : ℕ)
    → IsValid e
    → e.status ≡ waiting_for_human id since
    → (s : FlowStep) × At e s
      × (s.id ≡ id)
      × (resolve_gate now d e
          ≡ some (run_step now s (decided d s.id e), execute_step s.id s.role_id))
unfolding resolve_gate resolve_pending decided
resolve_gate-waiting now d e id since v q =
    let (s, at, same, pending) = subst (λ st. Fits st e) q v in
    let at_id : e.pending_gate ≡ some (record { step_id = s.id; since = since }) =
      pending ∙ ap (λ i. some (record { step_id = i; since = since })) (sym same) in
    (
      s,
      at,
      same,
      subst
          (λ g.
            resolve_pending g now d (record e { pending_gate = none })
            ≡ some (run_step now s (decided d s.id e), execute_step s.id s.role_id))
          (sym at_id) (decide_gate-passed now d s (record e { pending_gate = none }) at),
    )

pub feedback_for-push :
    (i j text : String) (e : PipelineEngine)
    → feedback_for j (push_feedback i text e)
      ≡ (if i == j then feedback_for j e ++ text ∷ [] else feedback_for j e)
unfolding feedback_for
feedback_for-push i j text e = rw (get-insert i j _ e.gate_feedback) (elim (Bool-cases (i == j)) [
  | inl hit ↦
      rw hit (ap (λ k. HashMap.get_or k [] e.gate_feedback ++ text ∷ []) (eq_of_beq i j hit))
  | inr miss ↦ rw miss
])

-- A decision at a gate runs the step that waited, empties the pending gate, and adds the feedback of
-- a rejection, and nothing else, to that step's feedback and to no other's.
pub resolve_gate-feedback :
    (now : ℕ) (d : GateDecision) (e : PipelineEngine) (id : String) (since : ℕ)
    → IsValid e
    → e.status ≡ waiting_for_human id since
    → (role : String) × (e' : PipelineEngine) × (resolve_gate now d e
        ≡ some (e', execute_step id role))
      × (e'.status ≡ running id role now)
      × (e'.pending_gate ≡ none)
      × ((j : String)
          → feedback_for j e'
            ≡ (if id == j then feedback_for j e ++ feedback_of d else feedback_for j e))
unfolding decided decide_gate feedback_for
resolve_gate-feedback now d e id since v q =
    let (s, at, same, result) = resolve_gate-waiting now d e id since v q in
    (
      s.role_id,
      run_step now s (decided d s.id e),
      result ∙ ap (λ i. some (run_step now s (decided d s.id e), execute_step i s.role_id)) same,
      ap (λ i. running i s.role_id now) same,
      emptied d s.id,
      λ j.
          subst
            (λ i.
              feedback_for j (decided d s.id e)
              ≡ (if i == j then feedback_for j e ++ feedback_of d else feedback_for j e))
            same (added d s.id j),
    )
  where
    emptied : (d : GateDecision) (i : String) → (decided d i e).pending_gate ≡ none
    emptied approve i = refl
    emptied (reject text) i = refl

    added :
        (d : GateDecision) (i j : String)
        → feedback_for j (decided d i e)
          ≡ (if i == j then feedback_for j e ++ feedback_of d else feedback_for j e)
    added approve i j = elim (Bool-cases (i == j)) [
      | inl hit ↦ rw (hit, append-nil)
      | inr miss ↦ rw miss
    ]
    added (reject text) i j = feedback_for-push i j text e

-- `resolve_gate` does not read the status, if there is a pending gate.
resolve_gate-status :
    (now : ℕ) (d : GateDecision) (st : PipelineStatus) (e : PipelineEngine) (g : PendingGate)
    → e.pending_gate ≡ some g
    → resolve_gate now d (record e { status = st }) ≡ resolve_gate now d e
unfolding resolve_gate resolve_pending decide_gate
resolve_gate-status now approve st e g q = rw (q, resolve_pending)
resolve_gate-status now (reject text) st e g q = rw (q, resolve_pending)

-- A failure leaves the pending gate: a decision then runs the waiting step of the failed run, as if
-- it had not failed.
pub resolve_gate-fail :
    (now : ℕ) (d : GateDecision) (msg : String) (e : PipelineEngine) (id : String) (since : ℕ)
    → IsValid e
    → e.status ≡ waiting_for_human id since
    → (role : String) × (e' : PipelineEngine) × (resolve_gate now d (fail msg e).0
        ≡ some (e', execute_step id role))
      × (resolve_gate now d e ≡ some (e', execute_step id role))
unfolding fail
resolve_gate-fail now d msg e id since v q =
    let (role, e', result, _, _, _) = resolve_gate-feedback now d e id since v q in
    let (s, at, same, pending) = subst (λ st. Fits st e) q v in
    (role, e', resolve_gate-status now d (PipelineStatus.failed msg) e _ pending ∙ result, result)

-- Deciding keeps the engine valid, and moves nothing.
pub decided-keeps :
    (now : ℕ) (d : GateDecision) (s : FlowStep) (e : PipelineEngine)
    → At e s
    → let e' = run_step now s (decided d s.id e) in
      IsValid e'
      × (e'.loop_counters ≡ e.loop_counters)
      × (e'.flow ≡ e.flow)
      × (e'.current_step ≡ e.current_step)
unfolding decided decide_gate
decided-keeps now approve s e at = ((s, at, refl, refl, λ h. refl), refl, refl, refl)
decided-keeps now (reject text) s e at = ((s, at, refl, refl, λ h. refl), refl, refl, refl)
