-- ===== src/Orchestration/Pipeline/Progress.antt =====
-- What each submitted step does to the engine's potential.
use auto_ai.Common.{
  ℕ, ◌+◌, ◌-◌, ◌≤◌, ◌<◌, ◌≡◌, refl, sym, subst, ◌∙◌, String, none, some, arith, length, get_elem?,
  get_elem?-some, lt_of_get_elem?, string_eq, Bool-cases, Option-cases, add32, u32_mod, leb, inl,
  inr,
}
use auto_ai.Common.HashMap
use auto_ai.Common.HashMap.{HashMap}
use auto_ai.Orchestration.Flow.{FlowStep, FlowSpec, ExitRouting, next, loop, get_step_index}
use auto_ai.Orchestration.Handoff.{HandoffDocument}
use auto_ai.Orchestration.Pipeline.{
  AdvanceResult, execute_step, wait_for_human, PipelineStatus, idle, running, waiting_for_human,
  PipelineEngine, Step, advance, advance_from, advance_current, enter_step, pause_at,
}
use auto_ai.Orchestration.Pipeline.Submit.{
  submit_handoff, submit_from, submit_running, settle, resolve_next_step, loop_target, route,
}
use auto_ai.Orchestration.Pipeline.Invariant.{At, Fits, IsValid, Sound, advance-Sound_moving}
use auto_ai.Orchestration.Pipeline.Submission.{settle-keeps, get_step_index-lt}
use auto_ai.Orchestration.Pipeline.Potential.{
  potential, potential_of, potential-next, potential-loop, allowances-more-lt, get_or-more_self_or,
}

-- Loop counters that the next iteration does not wrap.
abbrev pub IsCounted : HashMap String ℕ → Type 0
IsCounted counters = (id : String) → HashMap.get_or id 0 counters < u32_mod - 1

-- `max_iterations` is a `u32`.
abbrev pub IsWord : ExitRouting → Type 0
IsWord next = Unit {0}
IsWord (loop target max) = max < u32_mod

abbrev pub IsBounded : FlowSpec → Type 0
IsBounded flow = (i : ℕ) (s : FlowStep) → get_elem? flow.steps i ≡ some s → IsWord s.exit

-- Where the run goes on: the counters, the flow and the potential of the engine.
pub record Lower (flow : FlowSpec) (k : ℕ) (e : PipelineEngine) : Type 0 where
  pub counted : IsCounted e.loop_counters
  pub same_flow : e.flow ≡ flow
  pub lower : potential e < k

abbrev pub Lowers : FlowSpec → ℕ → Step → Type 0
Lowers flow k none = ⊥
Lowers flow k (some (e, execute_step _ _)) = Lower flow k e
Lowers flow k (some (e, wait_for_human _)) = Lower flow k e
Lowers flow k (some (e, _)) = Unit {0}

-- `advance` of an engine in motion changes neither counters, flow nor position.
abbrev pub Keeps : PipelineEngine → Step → Type 0
Keeps e none = Unit {0}
Keeps e (some (e', r)) =
    (e'.loop_counters ≡ e.loop_counters) × (e'.flow ≡ e.flow) × (e'.current_step ≡ e.current_step)

enter_step-Keeps :
    (now : ℕ) (s : FlowStep) (e : PipelineEngine) → Keeps e (some (enter_step now s e))
unfolding enter_step
enter_step-Keeps now s e = ground arith

advance_current-Keeps : (now : ℕ) (e : PipelineEngine) → Keeps e (advance_current now e)
unfolding advance_current
advance_current-Keeps now e = elim (Bool-cases (leb (length e.flow.steps) e.current_step)) [
  | inl over ↦ rw over (refl, refl, refl)
  | inr inside ↦ elim (Option-cases (get_elem? e.flow.steps e.current_step)) [
    | inl q ↦ rw (inside, q) tt
    | inr (s, q) ↦ rw (inside, q) (enter_step-Keeps now s e)
  ]
]

Lowers-of_Keeps :
    (flow : FlowSpec) (k : ℕ) (e : PipelineEngine) (x : Step)
    → Sound x
    → Keeps e x
    → Lower flow k e
    → Lowers flow k x
Lowers-of_Keeps flow k e none s h l = s
Lowers-of_Keeps flow k e (some (e', execute_step _ _)) s h l = record {
  counted = rw h.0 l.counted;
  same_flow = h.1 ∙ l.same_flow;
  lower = rw (h.0, h.1, h.2) l.lower;
}
Lowers-of_Keeps flow k e (some (e', wait_for_human _)) s h l = record {
  counted = rw h.0 l.counted;
  same_flow = h.1 ∙ l.same_flow;
  lower = rw (h.0, h.1, h.2) l.lower;
}
Lowers-of_Keeps flow k e (some (e', AdvanceResult.completed)) s h l = tt
Lowers-of_Keeps flow k e (some (e', AdvanceResult.failed _)) s h l = tt
Lowers-of_Keeps flow k e (some (e', AdvanceResult.paused _ _)) s h l = tt

-- Moving to a position from which less is left.
advance-Lowers :
    (flow : FlowSpec) (k now : ℕ) (e : PipelineEngine) {id role : String} {since : ℕ}
    → e.status ≡ running id role since
    → e.current_step ≤ length e.flow.steps
    → Lower flow k e
    → Lowers flow k (advance now e)
unfolding advance advance_from
advance-Lowers flow k now e {id} {role} {since} q h l =
    Lowers-of_Keeps flow k e (advance now e) (advance-Sound_moving now e q h)
      (rw (q, advance_from) (advance_current-Keeps now e)) l

-- Leaving by a loop that has reached its maximum: the engine pauses.
leave_paused :
    (now : ℕ) (reason target : String) (k : ℕ) (flow : FlowSpec) (s : FlowStep) (e : PipelineEngine)
    → At e s
    → Lowers flow k (route now (pause_at reason target) e)
unfolding route
leave_paused now reason target k flow s e at = elim (Option-cases (get_step_index e.flow target)) [
  | inl lost ↦ rw (lost, at) tt
  | inr (i, found) ↦
      let (t, there) = get_elem?-some e.flow.steps i (get_step_index-lt e.flow target i found) in
      rw (found, there) tt
]

-- Leaving by a loop that goes back.
leave_back :
    (now : ℕ) (target : String) (k : ℕ) (flow : FlowSpec) (e : PipelineEngine) {id role : String}
    {since : ℕ}
    → e.status ≡ running id role since
    → ((i : ℕ) → Lower flow k (record e { current_step = i }))
    → Lowers flow k (route now (loop_target target (get_step_index e.flow target)) e)
unfolding route loop_target
leave_back now target k flow e q l = elim (Option-cases (get_step_index e.flow target)) [
  | inl lost ↦ rw (lost, loop_target) tt
  | inr (i, found) ↦
      let inside = get_step_index-lt e.flow target i found in
      rw (found, loop_target)
        (advance-Lowers flow k now (record e { current_step = i }) q (omega arith) (l i))
]

-- The last part of `submit_handoff`, from an engine whose step is settled.
leave :
    (now : ℕ) (id role : String) (since : ℕ) (s : FlowStep) (x : ExitRouting) (e : PipelineEngine)
    → e.status ≡ running id role since
    → At e s
    → s.id ≡ id
    → s.exit ≡ x
    → IsWord x
    → IsCounted e.loop_counters
    → let (n, e') = resolve_next_step id x e in Lowers e.flow (potential e) (route now n e')
unfolding resolve_next_step route
leave now id role since s next e q at same ex w c =
    let inside = lt_of_get_elem? e.flow.steps e.current_step at in
    elim (Bool-cases (leb (length e.flow.steps) (e.current_step + 1))) [
      | inl last ↦ rw (last, route) tt
      | inr more ↦
          rw (more, route)
            (advance-Lowers e.flow (potential e) now
              (record e { current_step = e.current_step + 1 }) q (omega arith)
              (record {
                counted = c;
                same_flow = refl;
                lower = potential-next e.loop_counters e.flow e.current_step inside;
              }))
    ]
leave now id role since s (loop target max) e q at same ex w c =
    let count = HashMap.get_or id 0 e.loop_counters in
    let exact : add32 count 1 ≡ count + 1 = omega (arith, c id) in
    rw exact (elim (Bool-cases (leb max (count + 1))) [
      | inl over ↦ rw (over, route) (leave_paused now _ target _ e.flow s _ at)
      | inr more ↦ rw more (
          leave_back now target _ e.flow _ q λ i. record {
            counted =
                λ j. get_or-more_self_or e.loop_counters id j (u32_mod - 1) (c j) (ground arith);
            same_flow = refl;
            lower =
                potential-loop e.loop_counters _ e.flow e.current_step i
                  (allowances-more-lt e.loop_counters id e.flow.steps e.current_step s target max at
                    same ex (ground arith))
                  (lt_of_get_elem? e.flow.steps e.current_step at);
          })
    ])

Lowers-cast :
    (flow flow' : FlowSpec) (k k' : ℕ) (x : Step)
    → flow ≡ flow'
    → k ≡ k'
    → Lowers flow k x
    → Lowers flow' k' x
Lowers-cast flow flow' k k' x f e l =
    subst (λ n. Lowers flow' n x) e (subst (λ u. Lowers u k x) f l)

submit_running-Lowers :
    (id role : String) (since now : ℕ) (h : HandoffDocument) (s : FlowStep) (e : PipelineEngine)
    → e.status ≡ running id role since
    → At e s
    → s.id ≡ id
    → IsBounded e.flow
    → IsCounted e.loop_counters
    → Lowers e.flow (potential e) (submit_running id since now h e)
unfolding submit_running
submit_running-Lowers id role since now h s e q at same b c =
    let (flow, current, status, counters) = settle-keeps id since now s h e in
    let left =
      leave now id role since s s.exit (settle id since now s h e) (status ∙ q)
        (rw (flow, current) at) same refl (b e.current_step s at) (rw counters c) in
    rw at (
      Lowers-cast _ e.flow _ (potential e) _ flow
        (λ i. potential_of (counters i) (flow i) (current i)) left)

-- A step submitted to a running engine lowers the potential, if the engine then goes on.
pub submit_handoff-Lowers :
    (id role : String) (since now : ℕ) (h : HandoffDocument) (e : PipelineEngine)
    → e.status ≡ running id role since
    → IsValid e
    → IsBounded e.flow
    → IsCounted e.loop_counters
    → Lowers e.flow (potential e) (submit_handoff now h e)
unfolding submit_handoff submit_from
submit_handoff-Lowers id role since now h e q v b c =
    let (s, at, same, _, _) = subst (λ st. Fits st e) q v in
    subst (λ st. Lowers e.flow (potential e) (submit_from st now h e)) (sym q)
      (submit_running-Lowers id role since now h s e q at same b c)

-- Advancing keeps the position and the counters, whatever the status.
pub advance-Keeps : (now : ℕ) (e : PipelineEngine) → Keeps e (advance now e)
unfolding advance
advance-Keeps now e = by_status e.status
  where
    by_status : (st : PipelineStatus) → Keeps e (advance_from st now e)
    by_status idle = advance_current-Keeps now e
    by_status (running _ _ _) = advance_current-Keeps now e
    by_status (waiting_for_human _ _) = (refl, refl, refl)
    by_status PipelineStatus.completed = (refl, refl, refl)
    by_status (PipelineStatus.failed _) = (refl, refl, refl)
    by_status (PipelineStatus.paused k) = elim (Option-cases (get_elem? e.flow.steps k)) [
      | inl q ↦ rw q tt
      | inr (s, q) ↦ rw q (refl, refl, refl)
    ]
