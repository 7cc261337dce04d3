-- ===== src/Agent/Run/Turns.antt =====
-- The turns of a run, and their limit.
use auto_ai.Agent.Compaction.Compact.{refused, answered, Answer}
use auto_ai.Common.{
  [], ◌∷◌, zero, suc, true, false, none, some, refl, string_eq, arith, ℕ, String, Option, List, ◌≤◌,
  Bool, ◌≡◌, ◌+◌, Bool-cases, ap, leb, inl, ◌&&◌, ◌∙◌, ltb, inr,
}
use auto_ai.Common.HashMap
use auto_ai.Agent.Run.{
  Outcome, AgentError, Setup, stop_cancelled, Agent, State, Turn, End, read_cancel,
}
use auto_ai.Agent.Run.Rules.{
  Ensures, Ensures-then_do, Ends, stops, goes_on, Ends-of_Ensures, refresh_window-Kept,
  try_compact-Kept,
}
use auto_ai.Agent.Run.Request.{
  request_with_recovery, Reply, replied, settle_error, retry, errored, error_of, settle, recover,
  overflows, send, try_compact,
}
use auto_ai.Agent.Run.Batch.{
  run_calls, call_tool, guard_call, correct, run_tool, record_output, key_of, hints,
}
use auto_ai.Agent.Run.Loop.{
  use_tools, run_inner, one_turn, take_response, answer_turn, run_turns, note_usage, hard_limit,
  count_usage, ready, take_reply, prepare, start, try_tools, revive, answered_state, compacts,
}
use auto_ai.Config.Wire.{CompletionResponse, ToolCall, wants_tool, Usage}
use auto_ai.Agent.Repair.{repair_orphan_tool_uses, loop_terminate_threshold}
use auto_ai.Agent.Run.Guard.{clear_steering-result}

module _ (u : Setup) where
  -- The turns of a run that ended: within the limit, and the whole limit where the run gave up.
  abbrev pub Within : ℕ → End u → ℕ → Type 0
  Within limit (Outcome.finished r) turns = (turns ≤ limit) × (r.turns ≡ turns)
  Within limit (Outcome.failed (AgentError.max_turns_exceeded n)) turns =
      (turns ≡ limit) × (n ≡ limit)
  Within limit (Outcome.failed (AgentError.client e)) turns = turns ≤ limit
  Within limit (Outcome.failed (AgentError.loop_detected tool)) turns = turns ≤ limit
  Within limit (Outcome.failed (AgentError.config e)) turns = turns ≤ limit

  -- The end of a part that does not exhaust the turns, with so many begun.
  abbrev Early : ℕ → End u → ℕ → Type 0
  Early n (Outcome.finished r) turns = (turns ≤ n) × (r.turns ≡ turns)
  Early n (Outcome.failed (AgentError.max_turns_exceeded m)) turns = ⊥
  Early n (Outcome.failed (AgentError.client e)) turns = turns ≤ n
  Early n (Outcome.failed (AgentError.loop_detected tool)) turns = turns ≤ n
  Early n (Outcome.failed (AgentError.config e)) turns = turns ≤ n

  abbrev Counts : ℕ → Turn u → Type 0
  Counts n t = Ensures (λ s. s.result.turns ≡ n) (λ o s. Early n o s.result.turns) t

  stop_cancelled-Counts : (n : ℕ) (s : State u) → s.result.turns ≤ n → Counts n (stop_cancelled u s)
  unfolding stop_cancelled
  stop_cancelled-Counts n s h =
      stops (rw (clear_steering-result u s) h, rw (clear_steering-result u s))

  call_tool-Counts :
      (n : ℕ) (tc : ToolCall u.json.Value) (s : State u)
      → s.result.turns ≡ n
      → Counts n (call_tool u tc s)
  unfolding call_tool guard_call correct run_tool record_output
  call_tool-Counts n tc s h =
      let count = suc (HashMap.get_or (key_of u tc.name tc.input) 0 s.seen) in
      elim (Bool-cases (hints u tc count s)) [
        | inl hint ↦ rw hint (goes_on h)
        | inr no_hint ↦
            rw no_hint (elim (Bool-cases (leb (loop_terminate_threshold tc.name) count)) [
              | inl over ↦ rw over (stops (omega (arith, h)))
              | inr under ↦ rw under (goes_on h)
            ])
      ]

  run_calls-Counts :
      (n : ℕ) (tcs : List (ToolCall u.json.Value)) (s : State u)
      → s.result.turns ≡ n
      → Counts n (run_calls u tcs s)
  unfolding run_calls
  run_calls-Counts n [] s h = goes_on h
  run_calls-Counts n (tc ∷ tcs) s h = elim (Bool-cases (read_cancel u s).0) [
    | inl cancels ↦ rw cancels (stop_cancelled-Counts n _ (omega (arith, h)))
    | inr goes ↦
        rw goes
          (Ensures-then_do (call_tool-Counts n tc _ h) (λ s' h'. run_calls-Counts n tcs s' h'))
  ]

  use_tools-Counts :
      (n turn : ℕ) (resp : CompletionResponse u.json.Value) (s : State u)
      → s.result.turns ≡ n
      → Counts n (use_tools u turn resp s)
  unfolding use_tools
  use_tools-Counts n turn resp s h =
      Ensures-then_do (run_calls-Counts n resp.tool_calls _ h) (λ s' h'. goes_on h')

  try_tools-Counts :
      (n turn : ℕ) (resp : CompletionResponse u.json.Value) (s : State u)
      → s.result.turns ≡ n
      → Counts n (try_tools u turn resp s)
  try_tools-Counts n turn resp s h = elim (Bool-cases (read_cancel u s).0) [
    | inl cancels ↦ rw cancels (stop_cancelled-Counts n _ (omega (arith, h)))
    | inr goes ↦ rw goes (use_tools-Counts n turn resp _ h)
  ]

  answer_turn-Counts :
      (n turn : ℕ) (resp : CompletionResponse u.json.Value) (s : State u)
      → s.result.turns ≡ n
      → Counts n (answer_turn u turn resp s)
  unfolding answer_turn
  answer_turn-Counts n turn resp s h = elim (Bool-cases (revive u (answered_state u resp s)).0) [
    | inl revived ↦ rw revived (goes_on h)
    | inr ends ↦ rw ends (stops (omega (arith, h), refl))
  ]

  note_usage-turns :
      (usage : Option Usage) (s : State u) → (note_usage u usage s).result.turns ≡ s.result.turns
  note_usage-turns none s = refl
  note_usage-turns (some usage) s = refl

  count_usage-turns :
      (usage : Option Usage) (s : State u) → (count_usage u usage s).result.turns ≡ s.result.turns
  count_usage-turns none s = refl
  count_usage-turns (some usage) s = refl

  take_response-Counts :
      (n turn : ℕ) (resp : CompletionResponse u.json.Value) (s : State u)
      → s.result.turns ≡ n
      → Counts n (take_response u turn resp s)
  unfolding take_response
  take_response-Counts n turn resp s h = elim (Bool-cases (read_cancel u s).0) [
    | inl cancels ↦ rw cancels (
        stop_cancelled-Counts n _
          (omega (arith, h, count_usage-turns resp.usage (read_cancel u s).1)))
    | inr goes ↦
        let h' = note_usage-turns resp.usage (read_cancel u s).1 ∙ h in
        rw goes (elim (Bool-cases (wants_tool resp)) [
          | inl asks ↦ rw asks (try_tools-Counts n turn resp _ h')
          | inr answers ↦ rw answers (answer_turn-Counts n turn resp _ h')
        ])
  ]

  -- The errors of a reply are not about turns.
  abbrev ReplyCounts : ℕ → Reply u × State u → Type 0
  ReplyCounts n (replied resp, s) = s.result.turns ≡ n
  ReplyCounts n (errored e, s) = Early n (Outcome.failed e) s.result.turns

  settle_error-Counts :
      (n : ℕ) (err : Option String) (resp : CompletionResponse u.json.Value) (s : State u)
      → s.result.turns ≡ n
      → ReplyCounts n (settle_error u err resp s)
  settle_error-Counts n none resp s h =
      ap (λ r. r.turns) (refresh_window-Kept u resp.model_meta s).result ∙ h
  settle_error-Counts n (some err) resp s h = omega (arith, h)

  settle-Counts :
      (n : ℕ) (answer : Answer u.json.Value u.client.Error) (s : State u)
      → s.result.turns ≡ n
      → ReplyCounts n (settle u answer s)
  settle-Counts n (refused e) s h = omega (arith, h)
  settle-Counts n (answered resp) s h = settle_error-Counts n resp.error resp s h

  retry-Counts :
      (n : ℕ) (answer : Answer u.json.Value u.client.Error) (compacted : Bool × State u)
      → compacted.1.result.turns ≡ n
      → ReplyCounts n (retry u answer compacted)
  retry-Counts n answer (true, s) h = settle-Counts n (send u s).0 (send u s).1 h
  retry-Counts n answer (false, s) h = settle-Counts n answer s h

  recover-Counts :
      (n : ℕ) (err : Option String) (answer : Answer u.json.Value u.client.Error) (s : State u)
      → s.result.turns ≡ n
      → ReplyCounts n (recover u err answer s)
  recover-Counts n none answer s h = settle-Counts n answer s h
  recover-Counts n (some err) answer s h = elim (Bool-cases (overflows u s err)) [
    | inl over ↦ rw over (
        retry-Counts n answer (try_compact u true s)
          (ap (λ r. r.turns) (try_compact-Kept u true s).result ∙ h))
    | inr within ↦ rw within (settle-Counts n answer s h)
  ]

  request-Counts :
      (n : ℕ) (s : State u) → s.result.turns ≡ n → ReplyCounts n (request_with_recovery u s)
  unfolding request_with_recovery
  request-Counts n s h = recover-Counts n (error_of u (send u s).0) (send u s).0 (send u s).1 h

  take_reply-Counts :
      (n turn : ℕ) (reply : Reply u × State u)
      → ReplyCounts n reply
      → Counts n (take_reply u turn reply)
  take_reply-Counts n turn (replied resp, s) h = take_response-Counts n turn resp s h
  take_reply-Counts n turn (errored e, s) h = stops h

  ready-turns :
      (turn remaining : ℕ) (s : State u) → (ready u turn remaining s).result.turns ≡ suc turn
  ready-turns turn remaining s = elim (Bool-cases (leb remaining 5 && ltb 1 remaining)) [
    | inl near ↦ rw near
    | inr far ↦ rw far
  ]

  one_turn-Counts :
      (turn remaining : ℕ) (s : State u)
      → s.result.turns ≡ turn
      → Counts (suc turn) (one_turn u turn remaining s)
  unfolding one_turn
  one_turn-Counts turn remaining s h = elim (Bool-cases (read_cancel u s).0) [
    | inl cancels ↦ rw cancels (stop_cancelled-Counts (suc turn) _ (omega (arith, h)))
    | inr goes ↦ rw goes (
        take_reply-Counts (suc turn) turn
          (request_with_recovery u (ready u turn remaining (read_cancel u s).1))
          (request-Counts (suc turn) _ (ready-turns turn remaining (read_cancel u s).1)))
  ]

  Early-Within :
      (n limit : ℕ) (o : End u) (turns : ℕ) → n ≤ limit → Early n o turns → Within limit o turns
  Early-Within n limit (Outcome.finished r) turns le h = (omega (arith, h.0), h.1)
  Early-Within n limit (Outcome.failed (AgentError.max_turns_exceeded m)) turns le h = elim h [ ]
  Early-Within n limit (Outcome.failed (AgentError.client e)) turns le h = omega arith
  Early-Within n limit (Outcome.failed (AgentError.loop_detected tool)) turns le h = omega arith
  Early-Within n limit (Outcome.failed (AgentError.config e)) turns le h = omega arith

  widen :
      (n limit : ℕ) {t : Turn u}
      → n ≤ limit
      → Counts n t
      → Ensures (λ s. s.result.turns ≡ n) (λ o s. Within limit o s.result.turns) t
  widen n limit le (goes_on h) = goes_on h
  widen n limit le (stops {o} {s} h) = stops (Early-Within n limit o s.result.turns le h)

  run_turns-Within :
      (turn remaining : ℕ) (s : State u)
      → turn + remaining ≡ hard_limit u
      → s.result.turns ≡ turn
      → Ensures
          (λ s'. ⊥)
          (λ o s'. Within (hard_limit u) o s'.result.turns)
          (run_turns u turn remaining s)
  unfolding run_turns
  run_turns-Within turn zero s all h = stops (omega (arith, all, h), refl)
  run_turns-Within turn (suc remaining) s all h =
      Ensures-then_do
        (widen (suc turn) (hard_limit u) (omega (arith, all))
          (one_turn-Counts turn (suc remaining) s h))
        (λ s' h'. run_turns-Within (suc turn) remaining s' (omega (arith, all)) h')

  prepare-turns :
      (task : String) (a : Agent u.json.Value) (w : u.World) → (prepare u task a w).result.turns ≡ 0
  prepare-turns task a w =
      let s = start u (record a { memory = repair_orphan_tool_uses a.memory }) w in
      elim (Bool-cases (compacts u s)) [
        | inl over ↦ rw over (ap (λ r. r.turns) (try_compact-Kept u false s).result)
        | inr within ↦ rw within
      ]

  -- Every run ends, with no more turns than the hard limit; it gives up only after all of them, and the
  -- result that it returns carries the turns that were begun.
  pub run_inner-Within :
      (task : String) (a : Agent u.json.Value) (w : u.World)
      → Ends (λ o s. Within (hard_limit u) o s.result.turns) (run_inner u task a w)
  unfolding run_inner
  run_inner-Within task a w =
      Ends-of_Ensures (run_turns-Within 0 (hard_limit u) _ (omega arith) (prepare-turns task a w))
