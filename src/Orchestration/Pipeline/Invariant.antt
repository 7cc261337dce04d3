-- ===== src/Orchestration/Pipeline/Invariant.antt =====
-- What holds of a pipeline engine between two operations: the status fits the position in the
-- flow, so that no index is out of bounds.
use auto_ai.Common.{
  ℕ, ◌≤◌, ◌<◌, ◌≡◌, refl, String, Option, none, some, true, arith, length, get_elem?,
  get_elem?-some, lt_of_get_elem?, inl, inr, Bool-cases, leb, ap, subst, sym, eq_of_beq, string_eq,
  ◌&&◌, not,
}
use auto_ai.Orchestration.Flow.{FlowStep}
use auto_ai.Orchestration.Pipeline.{
  AdvanceResult, execute_step, wait_for_human, PipelineStatus, idle, running, waiting_for_human,
  PipelineEngine, is_some_of, Step, is_human, advance, advance_current, enter_step, advance_from,
  advance_from,
}

-- The step that the engine stands at.
abbrev pub At : PipelineEngine → FlowStep → Type 0
At e s = get_elem? e.flow.steps e.current_step ≡ some s

abbrev pub Fits : PipelineStatus → PipelineEngine → Type 0
Fits idle e = e.current_step ≤ length e.flow.steps
Fits (running id role since) e =
    (s : FlowStep) × At e s
    × (s.id ≡ id)
    × (s.role_id ≡ role)
    × (is_human s.gate ≡ true → e.gate_resolved_for_step ≡ some id)
Fits (waiting_for_human id since) e =
    (s : FlowStep) × At e s
    × (s.id ≡ id)
    × (e.pending_gate ≡ some (record { step_id = id; since = since }))
Fits PipelineStatus.completed e = e.current_step ≡ length e.flow.steps
Fits (PipelineStatus.failed msg) e = e.current_step ≤ length e.flow.steps
Fits (PipelineStatus.paused k) e = (k ≡ e.current_step) × (k < length e.flow.steps)

abbrev pub IsValid : PipelineEngine → Type 0
IsValid e = Fits e.status e

-- The result that a call reports is the state that it leaves.
abbrev pub Reports : AdvanceResult → PipelineStatus → Type 0
Reports (execute_step id role) st = (since : ℕ) × (st ≡ running id role since)
Reports (wait_for_human id) st = (since : ℕ) × (st ≡ waiting_for_human id since)
Reports AdvanceResult.completed st = st ≡ PipelineStatus.completed
Reports (AdvanceResult.failed msg) st = st ≡ PipelineStatus.failed msg
Reports (AdvanceResult.paused id reason) st = (k : ℕ) × (st ≡ PipelineStatus.paused k)

-- No panic, a valid engine, and a truthful result.
abbrev pub Sound : Step → Type 0
Sound none = ⊥
Sound (some (e, r)) = IsValid e × Reports r e.status

pub Fits-within :
    (st : PipelineStatus) (e : PipelineEngine) → Fits st e → e.current_step ≤ length e.flow.steps
Fits-within idle e h = h
Fits-within (running _ _ _) e (s, at, _, _, _) =
    omega (arith, lt_of_get_elem? e.flow.steps e.current_step at)
Fits-within (waiting_for_human _ _) e (s, at, _, _) =
    omega (arith, lt_of_get_elem? e.flow.steps e.current_step at)
Fits-within PipelineStatus.completed e h = omega arith
Fits-within (PipelineStatus.failed _) e h = h
Fits-within (PipelineStatus.paused _) e h = omega arith

is_some_of_sound : (o : Option String) (id : String) → is_some_of o id ≡ true → o ≡ some id
is_some_of_sound none id h = cc
is_some_of_sound (some t) id h = ap some (eq_of_beq t id h)

enter_step-Sound :
    (now : ℕ) (s : FlowStep) (e : PipelineEngine) → At e s → Sound (some (enter_step now s e))
unfolding enter_step
enter_step-Sound now s e at =
    elim (Bool-cases (is_human s.gate && not (is_some_of e.gate_resolved_for_step s.id))) [
      | inl blocked ↦ rw blocked ((s, at, refl, refl), (now, refl))
      | inr passed ↦ rw passed (
        (s, at, refl, refl, λ h. is_some_of_sound e.gate_resolved_for_step s.id (ground arith)),
        (now, refl),
      )
    ]

advance_current-Sound :
    (now : ℕ) (e : PipelineEngine)
    → e.current_step ≤ length e.flow.steps
    → Sound (advance_current now e)
unfolding advance_current
advance_current-Sound now e h = elim (Bool-cases (leb (length e.flow.steps) e.current_step)) [
  | inl over ↦ rw over (ground arith, refl)
  | inr inside ↦
      let (s, at) = get_elem?-some e.flow.steps e.current_step (ground arith) in
      rw (inside, at) (enter_step-Sound now s e at)
]

-- What `advance` needs of an engine in a given status.
abbrev Ready : PipelineStatus → PipelineEngine → Type 0
Ready (running _ _ _) e = e.current_step ≤ length e.flow.steps
Ready st e = Fits st e

advance_from-Sound :
    (st : PipelineStatus) (now : ℕ) (e : PipelineEngine)
    → e.status ≡ st
    → Ready st e
    → Sound (advance_from st now e)
unfolding advance_from
advance_from-Sound idle now e q h = advance_current-Sound now e h
advance_from-Sound (running id role since) now e q h = advance_current-Sound now e h
advance_from-Sound (waiting_for_human id since) now e q h =
    (subst (λ st. Fits st e) (sym q) h, (since, q))
advance_from-Sound PipelineStatus.completed now e q h = (subst (λ st. Fits st e) (sym q) h, q)
advance_from-Sound (PipelineStatus.failed msg) now e q h = (subst (λ st. Fits st e) (sym q) h, q)
advance_from-Sound (PipelineStatus.paused k) now e q h =
    let (s, at) = get_elem?-some e.flow.steps k h.1 in
    rw at (subst (λ st. Fits st e) (sym q) h, (k, q))

Ready-of_Fits : (st : PipelineStatus) (e : PipelineEngine) → Fits st e → Ready st e
Ready-of_Fits (running id role since) e h = Fits-within (running id role since) e h
Ready-of_Fits idle e h = h
Ready-of_Fits (waiting_for_human _ _) e h = h
Ready-of_Fits PipelineStatus.completed e h = h
Ready-of_Fits (PipelineStatus.failed _) e h = h
Ready-of_Fits (PipelineStatus.paused _) e h = h

-- Advancing a valid engine never panics, leaves a valid engine, and reports its state.
pub advance-Sound : (now : ℕ) (e : PipelineEngine) → IsValid e → Sound (advance now e)
unfolding advance
advance-Sound now e h = advance_from-Sound e.status now e refl (Ready-of_Fits e.status e h)

-- An engine that is about to move on: still marked as running, at a position in the flow.
pub advance-Sound_moving :
    (now : ℕ) (e : PipelineEngine) {id role : String} {since : ℕ}
    → e.status ≡ running id role since
    → e.current_step ≤ length e.flow.steps
    → Sound (advance now e)
unfolding advance
advance-Sound_moving now e {id} {role} {since} q h =
    rw (q, advance_from) (advance_from-Sound (running id role since) now e q h)
