-- ===== src/Orchestration/Pipeline/Accounts.antt =====
-- The accounts of a run: its token totals and its history.
use auto_ai.Common.{
  [], ◌∷◌, none, some, inl, inr, refl, sym, ap, ◌∙◌, subst, ◌+◌, ◌%◌, string_eq, ◌++◌, u64_mod,
  arith, ◌>>=◌, Bool-cases, Option-cases, leb, length, get_elem?, Option, List, ◌≡◌, ℕ, String,
  ◌==◌, ◌&&◌, not,
}
use auto_ai.Orchestration.Budget.{record_usage}
use auto_ai.Orchestration.Flow.{FlowStep, ExitRouting, next, loop, get_step_index}
use auto_ai.Orchestration.Handoff.{HandoffDocument}
use auto_ai.Orchestration.Pipeline.{
  PipelineEngine, PipelineStatus, StepRecord, idle, running, waiting_for_human, NextStep, index,
  complete, error, pause_at, Step, advance_current, enter_step, advance, advance_from, is_human,
  is_some_of, AdvanceResult,
}
use auto_ai.Orchestration.Pipeline.Submit.{
  route, correct_target, account, push_record, settle, submit_running, submit_handoff,
  resolve_next_step, move_to, expected_role, submit_from, not_running,
}

-- What the accounts are kept in.
abbrev pub Books : Type 0
Books = List StepRecord × (ℕ × ℕ)

abbrev pub books : PipelineEngine → Books
books e = (e.step_history, (e.cumulative_tokens, e.budget_tracker.cumulative))

abbrev pub tokens_in : Option HandoffDocument → ℕ
tokens_in none = 0
tokens_in (some h) = h.token_usage.step_tokens

abbrev pub history_tokens : List StepRecord → ℕ
history_tokens [] = 0
history_tokens (r ∷ records) = tokens_in r.handoff + history_tokens records

abbrev pub Agree : Books → Type 0
Agree (history, (cumulative, tracked)) =
    (cumulative ≡ history_tokens history % u64_mod) × (tracked ≡ cumulative)

-- The total of the engine, and that of its budget tracker, is the sum of what the history records.
abbrev pub Accounted : PipelineEngine → Type 0
Accounted e = Agree (books e)

-- Of the engine that an operation leaves, if it leaves one.
abbrev pub Leaves {ℓ} :
    {R : Type ℓ} → (PipelineEngine → Type 0) → Option (PipelineEngine × R) → Type 0
Leaves P none = Unit
Leaves P (some (e, _)) = P e

enter_step-books :
    (now : ℕ) (s : FlowStep) (e : PipelineEngine) → books (enter_step now s e).0 ≡ books e
unfolding enter_step
enter_step-books now s e =
    elim (Bool-cases (is_human s.gate && not (is_some_of e.gate_resolved_for_step s.id))) [
      | inl waits ↦ rw waits refl
      | inr runs ↦ rw runs refl
    ]

advance_current-books :
    (now : ℕ) (e : PipelineEngine) → Leaves (λ e'. books e' ≡ books e) (advance_current now e)
unfolding advance_current
advance_current-books now e = elim (Bool-cases (leb (length e.flow.steps) e.current_step)) [
  | inl at_end ↦ rw at_end refl
  | inr inside ↦ elim (Option-cases (get_elem? e.flow.steps e.current_step)) [
    | inl lost ↦ rw (inside, lost) tt
    | inr (s, at) ↦ rw (inside, at) (enter_step-books now s e)
  ]
]

pub advance-books :
    (now : ℕ) (e : PipelineEngine) → Leaves (λ e'. books e' ≡ books e) (advance now e)
unfolding advance advance_from
advance-books now e = by_status e.status
  where
    by_status : (st : PipelineStatus) → Leaves (λ e'. books e' ≡ books e) (advance_from st now e)
    by_status idle = advance_current-books now e
    by_status (running _ _ _) = advance_current-books now e
    by_status (waiting_for_human _ _) = refl
    by_status PipelineStatus.completed = refl
    by_status (PipelineStatus.failed _) = refl
    by_status (PipelineStatus.paused k) = elim (Option-cases (get_elem? e.flow.steps k)) [
      | inl lost ↦ rw lost tt
      | inr (s, at) ↦ rw at refl
    ]

move_to-books : (o : Option ℕ) (e : PipelineEngine) → books (move_to o e) ≡ books e
move_to-books none e = refl
move_to-books (some i) e = refl

route-books :
    (now : ℕ) (n : NextStep) (e : PipelineEngine)
    → Leaves (λ e'. books e' ≡ books e) (route now n e)
unfolding route
route-books now (index i) e = advance-books now (record e { current_step = i })
route-books now complete e = refl
route-books now (error msg) e = refl
route-books now (pause_at reason id) e =
    let moved = move_to (get_step_index e.flow id) e in
    by_step (get_elem? moved.flow.steps moved.current_step) moved
      (move_to-books (get_step_index e.flow id) e)
  where
    by_step :
        (o : Option FlowStep) (moved : PipelineEngine)
        → books moved ≡ books e
        → Leaves
            (λ e'. books e' ≡ books e)
            (o >>= (λ step. some (
              record moved { status = PipelineStatus.paused moved.current_step },
              AdvanceResult.paused step.id reason,
            )))
    by_step none moved q = tt
    by_step (some s) moved q = q

history_tokens-push :
    (xs : List StepRecord) (r : StepRecord)
    → history_tokens (xs ++ r ∷ []) ≡ history_tokens xs + tokens_in r.handoff
history_tokens-push [] r = omega arith
history_tokens-push (x ∷ xs) r = omega (arith, history_tokens-push xs r)

correct_target-books :
    (id : String) (x : Option String) (h : HandoffDocument) (e : PipelineEngine)
    → books (correct_target id x h e).1 ≡ books e
unfolding correct_target
correct_target-books id none h e = refl
correct_target-books id (some x) h e = elim (Bool-cases (h.to == "")) [
  | inl blank ↦ rw blank refl
  | inr given ↦ elim (Bool-cases (h.to == x)) [
    | inl same ↦ rw (given, same) refl
    | inr differs ↦ rw (given, differs) refl
  ]
]

push_record-Accounted :
    (id role : String) (since now : ℕ) (h : HandoffDocument) (e : PipelineEngine)
    → e.cumulative_tokens ≡ (history_tokens e.step_history + h.token_usage.step_tokens) % u64_mod
    → e.budget_tracker.cumulative ≡ e.cumulative_tokens
    → Accounted (push_record id role since now h e)
unfolding push_record
push_record-Accounted id role since now h e a b =
    (a ∙ ap (λ n. n % u64_mod) (sym (history_tokens-push e.step_history _)), b)

account-Accounted :
    (id role : String) (since now : ℕ) (h : HandoffDocument) (e : PipelineEngine)
    → Accounted e
    → Accounted (push_record id role since now (account role h e).0 (account role h e).1)
unfolding account record_usage
account-Accounted id role since now h e (a, b) =
    push_record-Accounted id role since now (account role h e).0 (account role h e).1
      (omega (arith, a)) (omega (arith, b))

settle-Accounted :
    (id : String) (since now : ℕ) (s : FlowStep) (h : HandoffDocument) (e : PipelineEngine)
    → Accounted e
    → Accounted (settle id since now s h e)
unfolding settle
settle-Accounted id since now s h e a =
    let ready = record e { gate_resolved_for_step = none } in
    let expected = expected_role e.flow e.current_step s.exit in
    account-Accounted id s.role_id since now (correct_target id expected h ready).0
      (correct_target id expected h ready).1
      (subst Agree (sym (correct_target-books id expected h ready)) a)

resolve_next_step-books :
    (id : String) (x : ExitRouting) (e : PipelineEngine)
    → books (resolve_next_step id x e).1 ≡ books e
unfolding resolve_next_step
resolve_next_step-books id next e = refl
resolve_next_step-books id (loop _ _) e = refl

pub same_books :
    (o : Step) (e : PipelineEngine)
    → Accounted e
    → Leaves (λ e'. books e' ≡ books e) o
    → Leaves Accounted o
same_books none e a h = tt
same_books (some (e', r)) e a h = subst Agree (sym h) a

submit_running-Accounted :
    (id : String) (since now : ℕ) (h : HandoffDocument) (e : PipelineEngine)
    → Accounted e
    → Leaves Accounted (submit_running id since now h e)
unfolding submit_running
submit_running-Accounted id since now h e a =
    elim (Option-cases (get_elem? e.flow.steps e.current_step)) [
      | inl lost ↦ rw lost tt
      | inr (s, at) ↦ rw at (
          let (n, e') = resolve_next_step id s.exit (settle id since now s h e) in
          same_books (route now n e') e'
            (subst Agree (sym (resolve_next_step-books id s.exit (settle id since now s h e)))
              (settle-Accounted id since now s h e a))
            (route-books now n e'))
    ]

pub submit_handoff-Accounted :
    (now : ℕ) (h : HandoffDocument) (e : PipelineEngine)
    → Accounted e
    → Leaves Accounted (submit_handoff now h e)
unfolding submit_handoff submit_from
submit_handoff-Accounted now h e a = by_status e.status
  where
    failing :
        Leaves Accounted (advance now (record e { status = PipelineStatus.failed not_running }))
    failing =
        same_books _ e a
          (advance-books now (record e { status = PipelineStatus.failed not_running }))

    by_status : (st : PipelineStatus) → Leaves Accounted (submit_from st now h e)
    by_status (running id role since) = submit_running-Accounted id since now h e a
    by_status idle = failing
    by_status (waiting_for_human _ _) = failing
    by_status PipelineStatus.completed = failing
    by_status (PipelineStatus.failed _) = failing
    by_status (PipelineStatus.paused _) = failing
