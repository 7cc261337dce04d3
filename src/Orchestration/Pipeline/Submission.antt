-- ===== src/Orchestration/Pipeline/Submission.antt =====
-- `submit_handoff` on a valid engine.
use auto_ai.Common.{
  ℕ, ◌+◌, ◌<◌, ◌≡◌, refl, String, Option, none, some, arith, length, get_elem?-some,
  lt_of_get_elem?, position-some, Bool-cases, Option-cases, leb, ◌∙◌, string_eq, add32, inl, inr,
}
use auto_ai.Common.HashMap
use auto_ai.Orchestration.Flow.{FlowStep, FlowSpec, get_step_index, ExitRouting, next, loop}
use auto_ai.Orchestration.Handoff.{HandoffDocument}
use auto_ai.Orchestration.Pipeline.{
  PipelineStatus, idle, running, waiting_for_human, PipelineEngine, NextStep, index, complete,
  error, pause_at,
}
use auto_ai.Orchestration.Pipeline.Submit.{
  submit_handoff, submit_from, submit_running, settle, resolve_next_step, loop_target, route,
  correct_target, account, push_record, expected_role,
}
use auto_ai.Orchestration.Pipeline.Invariant.{
  Fits, IsValid, Sound, Fits-within, advance-Sound, advance-Sound_moving,
}

correct_target-keeps :
    (id : String) (x : Option String) (h : HandoffDocument) (e : PipelineEngine)
    → let e' = (correct_target id x h e).1 in
      (e'.flow ≡ e.flow)
      × (e'.current_step ≡ e.current_step)
      × (e'.status ≡ e.status)
      × (e'.loop_counters ≡ e.loop_counters)
unfolding correct_target
correct_target-keeps id none h e = (refl, refl, refl, refl)
correct_target-keeps id (some x) h e = ground arith

-- Settling a step moves nothing.
pub settle-keeps :
    (id : String) (since now : ℕ) (s : FlowStep) (h : HandoffDocument) (e : PipelineEngine)
    → let e' = settle id since now s h e in
      (e'.flow ≡ e.flow)
      × (e'.current_step ≡ e.current_step)
      × (e'.status ≡ e.status)
      × (e'.loop_counters ≡ e.loop_counters)
unfolding settle account push_record
settle-keeps id since now s h e =
    correct_target-keeps id (expected_role e.flow e.current_step s.exit) h
      (record e { gate_resolved_for_step = none })

pub get_step_index-lt :
    (flow : FlowSpec) (id : String) (i : ℕ)
    → get_step_index flow id ≡ some i
    → i < length flow.steps
unfolding get_step_index
get_step_index-lt flow id i h =
    let (s, at, _) = position-some _ flow.steps i h in lt_of_get_elem? flow.steps i at

-- Where a next step leads from an engine at a step of its flow.
abbrev Leads : NextStep → FlowSpec → Type 0
Leads (index i) flow = i < length flow.steps
Leads complete flow = Unit
Leads (error msg) flow = Unit
Leads (pause_at reason id) flow = Unit

loop_target-Leads :
    (id : String) (flow : FlowSpec) → Leads (loop_target id (get_step_index flow id)) flow
unfolding loop_target
loop_target-Leads id flow = elim (Option-cases (get_step_index flow id)) [
  | inl q ↦ rw q tt
  | inr (i, q) ↦ rw q (get_step_index-lt flow id i q)
]

resolve_next_step-Leads :
    (id : String) (x : ExitRouting) (e : PipelineEngine)
    → let (n, e') = resolve_next_step id x e in
      Leads n e'.flow
      × (e'.flow ≡ e.flow)
      × (e'.current_step ≡ e.current_step)
      × (e'.status ≡ e.status)
unfolding resolve_next_step
resolve_next_step-Leads id next e =
    elim (Bool-cases (leb (length e.flow.steps) (e.current_step + 1))) [
      | inl last ↦ rw last (tt, refl, refl, refl)
      | inr more ↦ rw more (ground arith, refl, refl, refl)
    ]
resolve_next_step-Leads id (loop target max) e =
    elim (Bool-cases (leb max (add32 (HashMap.get_or id 0 e.loop_counters) 1))) [
      | inl over ↦ rw over (tt, refl, refl, refl)
      | inr more ↦ rw more (loop_target-Leads target e.flow, refl, refl, refl)
    ]

-- Routing from a running engine that stands at a step.
route-Sound :
    (now : ℕ) (n : NextStep) (e : PipelineEngine) {id role : String} {since : ℕ}
    → Leads n e.flow
    → e.status ≡ running id role since
    → e.current_step < length e.flow.steps
    → Sound (route now n e)
unfolding route
route-Sound now (index i) e l q h =
    advance-Sound_moving now (record e { current_step = i }) q (omega arith)
route-Sound now complete e l q h = (refl, refl)
route-Sound now (error msg) e l q h = (omega arith, refl)
route-Sound now (pause_at reason id) e l q h = elim (Option-cases (get_step_index e.flow id)) [
  | inl lost ↦
      let (s, at) = get_elem?-some e.flow.steps e.current_step h in
      rw (lost, at) ((refl, h), (e.current_step, refl))
  | inr (i, found) ↦
      let inside = get_step_index-lt e.flow id i found in
      let (s, at) = get_elem?-some e.flow.steps i inside in
      rw (found, at) ((refl, inside), (i, refl))
]

submit_running-Sound :
    (id role : String) (since now : ℕ) (h : HandoffDocument) (e : PipelineEngine)
    → e.status ≡ running id role since
    → e.current_step < length e.flow.steps
    → Sound (submit_running id since now h e)
unfolding submit_running
submit_running-Sound id role since now h e q inside =
    let (s, at) = get_elem?-some e.flow.steps e.current_step inside in
    let kept = settle-keeps id since now s h e in
    let e₁ = settle id since now s h e in
    let led = resolve_next_step-Leads id s.exit e₁ in
    rw at (
      route-Sound now (resolve_next_step id s.exit e₁).0 (resolve_next_step id s.exit e₁).1 led.0
        (led.3 ∙ (kept.2 ∙ q)) (rw (led.1, led.2, kept.0, kept.1) inside))

pub submit_handoff-Sound :
    (now : ℕ) (h : HandoffDocument) (e : PipelineEngine)
    → IsValid e
    → Sound (submit_handoff now h e)
unfolding submit_handoff
submit_handoff-Sound now h e v = by_status e.status refl v
  where
    by_status : (st : PipelineStatus) → e.status ≡ st → Fits st e → Sound (submit_from st now h e)
    by_status (running id role since) q (s, at, _, _, _) =
        submit_running-Sound id role since now h e q
          (lt_of_get_elem? e.flow.steps e.current_step at)
    by_status idle q f = advance-Sound now _ (Fits-within idle e f)
    by_status (waiting_for_human id since) q f =
        advance-Sound now _ (Fits-within (waiting_for_human id since) e f)
    by_status PipelineStatus.completed q f =
        advance-Sound now _ (Fits-within PipelineStatus.completed e f)
    by_status (PipelineStatus.failed msg) q f = advance-Sound now _ f
    by_status (PipelineStatus.paused k) q f =
        advance-Sound now _ (Fits-within (PipelineStatus.paused k) e f)
