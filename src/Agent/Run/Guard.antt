-- ===== src/Agent/Run/Guard.antt =====
-- The cycle guard: how often a run executes one tool with the same arguments.
use auto_ai.Common.HashMap
use auto_ai.Common.{
  zero, suc, false, none, some, string_eq, arith, String, ℕ, ◌≡◌, ◌≤◌, List, ◌∷◌, ◌+◌, leb, [],
  Bool-cases, ◌&&◌, inl, inr, Option, ltb,
}
use auto_ai.Agent.Run.{
  Setup, State, stop_cancelled, clear_steering_on_cancel, Turn, read_cancel, Agent,
}
use auto_ai.Agent.Run.Rules.{
  Ensures, Ensures-then_do, Ends, stops, goes_on, Kept, Ends-of_Ensures, request_with_recovery-Kept,
  try_compact-Kept,
}
use auto_ai.Agent.Repair.{loop_terminate_threshold, repair_orphan_tool_uses}
use auto_ai.Agent.Run.Batch.{
  key_of, call_tool, run_calls, guard_call, correct, run_tool, record_output, hints, output_of,
}
use auto_ai.Config.Wire.{ToolCall, CompletionResponse, wants_tool, Usage}
use auto_ai.Agent.Run.Loop.{
  one_turn, answer_turn, take_response, run_inner, use_tools, run_turns, start_turn, try_tools,
  prepare, revive, take_reply, start, answered_state, hard_limit, note_usage, ready, count_usage,
  compacts, drain_steering,
}
use auto_ai.Agent.Tools.{execute}
use auto_ai.Agent.Run.Request.{Reply, request_with_recovery, replied, errored}
use auto_ai.Agent.Run.Book.{
  IsGuardedBook, IsGuarded, runs, IsGuardedBook-correct, IsGuardedBook-run,
}
use auto_ai.Orchestration.Driver.{ToolCallRecord}

module _ (u : Setup) where
  abbrev IsBounded : State u → Type 0
  IsBounded s =
      (tool key : String) → runs u tool key s.result.tool_calls + 2 ≤ loop_terminate_threshold tool

  abbrev Guards : Turn u → Type 0
  Guards n = Ensures (IsGuarded u) (λ o s. IsBounded s) n

  IsGuarded-IsBounded : (s : State u) → IsGuarded u s → IsBounded s
  unfolding IsGuardedBook
  IsGuarded-IsBounded s g tool key = (g tool key).1

  abbrev ran_as : ToolCall u.json.Value → State u → ToolCallRecord u.json.Value
  ran_as tc s =
      let (res, w) = execute u.tools tc.name tc.input s.world in
      record {
        tool = tc.name;
        args = tc.input;
        result = (output_of u res s.security_errors).0.content;
      }

  call_tool-Guards :
      (tc : ToolCall u.json.Value) (s : State u) → IsGuarded u s → Guards (call_tool u tc s)
  unfolding call_tool guard_call correct run_tool record_output
  call_tool-Guards tc s g =
      let count = suc (HashMap.get_or (key_of u tc.name tc.input) 0 s.seen) in
      elim (Bool-cases (hints u tc count s)) [
        | inl hint ↦ rw hint (
            goes_on (
              IsGuardedBook-correct u (key_of u tc.name tc.input) s.seen s.corrected
                s.result.tool_calls g))
        | inr no_hint ↦
            rw no_hint (elim (Bool-cases (leb (loop_terminate_threshold tc.name) count)) [
              | inl over ↦ rw over (stops (IsGuarded-IsBounded s g))
              | inr under ↦ rw under (
                  goes_on (
                    IsGuardedBook-run u (ran_as tc s) s.seen s.corrected s.result.tool_calls g
                      no_hint under))
            ])
      ]

  pub clear_steering-result : (s : State u) → (clear_steering_on_cancel u s).result ≡ s.result
  unfolding clear_steering_on_cancel
  clear_steering-result s = ground arith

  stop_cancelled-Guards : (s : State u) → IsGuarded u s → Guards (stop_cancelled u s)
  unfolding stop_cancelled
  stop_cancelled-Guards s g = stops (rw (clear_steering-result s) (IsGuarded-IsBounded s g))

  run_calls-Guards :
      (tcs : List (ToolCall u.json.Value)) (s : State u)
      → IsGuarded u s
      → Guards (run_calls u tcs s)
  unfolding run_calls
  run_calls-Guards [] s g = goes_on g
  run_calls-Guards (tc ∷ tcs) s g = elim (Bool-cases (read_cancel u s).0) [
    | inl cancels ↦ rw cancels (stop_cancelled-Guards _ g)
    | inr goes ↦
        rw goes (Ensures-then_do (call_tool-Guards tc _ g) (λ s' g'. run_calls-Guards tcs s' g'))
  ]

  use_tools-Guards :
      (turn : ℕ) (resp : CompletionResponse u.json.Value) (s : State u)
      → IsGuarded u s
      → Guards (use_tools u turn resp s)
  unfolding use_tools
  use_tools-Guards turn resp s g =
      Ensures-then_do (run_calls-Guards resp.tool_calls _ g) (λ s' g'. goes_on g')

  try_tools-Guards :
      (turn : ℕ) (resp : CompletionResponse u.json.Value) (s : State u)
      → IsGuarded u s
      → Guards (try_tools u turn resp s)
  try_tools-Guards turn resp s g = elim (Bool-cases (read_cancel u s).0) [
    | inl cancels ↦ rw cancels (stop_cancelled-Guards _ g)
    | inr goes ↦ rw goes (use_tools-Guards turn resp _ g)
  ]

  answer_turn-Guards :
      (turn : ℕ) (resp : CompletionResponse u.json.Value) (s : State u)
      → IsGuarded u s
      → Guards (answer_turn u turn resp s)
  unfolding answer_turn
  answer_turn-Guards turn resp s g = elim (Bool-cases (revive u (answered_state u resp s)).0) [
    | inl revived ↦ rw revived (goes_on g)
    | inr ends ↦ rw ends (stops (IsGuarded-IsBounded s g))
  ]

  note_usage-IsGuarded :
      (usage : Option Usage) (s : State u) → IsGuarded u s → IsGuarded u (note_usage u usage s)
  note_usage-IsGuarded none s g = g
  note_usage-IsGuarded (some usage) s g = g

  count_usage-IsGuarded :
      (usage : Option Usage) (s : State u) → IsGuarded u s → IsGuarded u (count_usage u usage s)
  count_usage-IsGuarded none s g = g
  count_usage-IsGuarded (some usage) s g = g

  take_response-Guards :
      (turn : ℕ) (resp : CompletionResponse u.json.Value) (s : State u)
      → IsGuarded u s
      → Guards (take_response u turn resp s)
  unfolding take_response
  take_response-Guards turn resp s g = elim (Bool-cases (read_cancel u s).0) [
    | inl cancels ↦
        rw cancels
          (stop_cancelled-Guards _ (count_usage-IsGuarded resp.usage (read_cancel u s).1 g))
    | inr goes ↦ rw goes (elim (Bool-cases (wants_tool resp)) [
      | inl asks ↦
          rw asks
            (try_tools-Guards turn resp _ (note_usage-IsGuarded resp.usage (read_cancel u s).1 g))
      | inr answers ↦
          rw answers
            (answer_turn-Guards turn resp _ (note_usage-IsGuarded resp.usage (read_cancel u s).1 g))
    ])
  ]

  take_reply-Guards :
      (turn : ℕ) (reply : Reply u × State u)
      → IsGuarded u reply.1
      → Guards (take_reply u turn reply)
  take_reply-Guards turn (replied resp, s) g = take_response-Guards turn resp s g
  take_reply-Guards turn (errored e, s) g = stops (IsGuarded-IsBounded s g)

  Kept-IsGuarded : {s s' : State u} → Kept s s' → IsGuarded u s → IsGuarded u s'
  Kept-IsGuarded k g = rw (k.result, k.seen, k.corrected) g

  start_turn-IsGuarded :
      (turn remaining : ℕ) (s : State u)
      → IsGuarded u s
      → IsGuarded u (start_turn u turn remaining s)
  start_turn-IsGuarded turn remaining s g = elim (Bool-cases (leb remaining 5 && ltb 1 remaining)) [
    | inl near ↦ rw near g
    | inr far ↦ rw far g
  ]

  one_turn-Guards :
      (turn remaining : ℕ) (s : State u) → IsGuarded u s → Guards (one_turn u turn remaining s)
  unfolding one_turn
  one_turn-Guards turn remaining s g = elim (Bool-cases (read_cancel u s).0) [
    | inl cancels ↦ rw cancels (stop_cancelled-Guards _ g)
    | inr goes ↦ rw goes (
        take_reply-Guards turn
          (request_with_recovery u (ready u turn remaining (read_cancel u s).1))
          (Kept-IsGuarded
            (request_with_recovery-Kept u (ready u turn remaining (read_cancel u s).1))
            (start_turn-IsGuarded turn remaining (drain_steering u (read_cancel u s).1) g)))
  ]

  run_turns-Guards :
      (turn remaining : ℕ) (s : State u)
      → IsGuarded u s
      → Ensures (λ s'. ⊥) (λ o s'. IsBounded s') (run_turns u turn remaining s)
  unfolding run_turns
  run_turns-Guards turn zero s g = stops (IsGuarded-IsBounded s g)
  run_turns-Guards turn (suc remaining) s g =
      Ensures-then_do (one_turn-Guards turn (suc remaining) s g)
        (λ s' g'. run_turns-Guards (suc turn) remaining s' g')

  new-IsGuarded : IsGuardedBook u [] [] []
  unfolding IsGuardedBook HashMap.get
  new-IsGuarded tool key = ground arith

  prepare-IsGuarded :
      (task : String) (a : Agent u.json.Value) (w : u.World) → IsGuarded u (prepare u task a w)
  prepare-IsGuarded task a w =
      let s = start u (record a { memory = repair_orphan_tool_uses a.memory }) w in
      elim (Bool-cases (compacts u s)) [
        | inl over ↦ rw over (Kept-IsGuarded (try_compact-Kept u false s) new-IsGuarded)
        | inr within ↦ rw within new-IsGuarded
      ]

  -- However a run ends, it has executed no tool with the same arguments more than twice, or more
  -- than six times for a tool that polls: two less than the tool's threshold.
  pub run_inner-runs :
      (task : String) (a : Agent u.json.Value) (w : u.World)
      → Ends
          (λ o s.
            (tool key : String)
            → runs u tool key s.result.tool_calls + 2 ≤ loop_terminate_threshold tool)
          (run_inner u task a w)
  unfolding run_inner
  run_inner-runs task a w =
      Ends-of_Ensures (run_turns-Guards 0 (hard_limit u) _ (prepare-IsGuarded task a w))
