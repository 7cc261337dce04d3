-- ===== src/Agent/Run/Told.antt =====
-- The last event of a run, and how the run ends.
use auto_ai.Common.{zero, suc, false, string_eq, refl, List, Option, ◌∷◌}
use auto_ai.Common.HashMap
use auto_ai.Agent.Compaction.Compact.{refused, answered, Answer}
use auto_ai.Agent.Run.{
  AgentError, StreamEvent, Setup, State, Outcome, stop, End, Turn, read_cancel, stop_cancelled,
  emit, clear_steering_on_cancel, Agent,
}
use auto_ai.Agent.Run.Rules.{Ensures, Ensures-then_do, Ends, stops, goes_on, Ends-of_Ensures}
use auto_ai.Agent.Run.Batch.{run_calls, guard_call, call_tool, key_of, stop_loop, hints}
use auto_ai.Agent.Run.Loop.{
  use_tools, answer_turn, take_response, revive, run_turns, one_turn, run_inner, take_reply,
  hard_limit, ready, cap_message, try_tools, answered_state,
}
use auto_ai.Common.{
  inr, ℕ, none, ◌++◌, ◌≡◌, some, ◌∷◌, Bool-cases, ◌⊎◌, leb, inl, [], String, suc, Bool, true,
}
use auto_ai.Config.Wire.{ToolCall, CompletionResponse, wants_tool}
use auto_ai.Agent.Repair.{loop_terminate_threshold}
use auto_ai.Agent.Run.Request.{
  settle_error, Reply, settle, recover, request_with_recovery, replied, errored, overflows, retry,
  send, try_compact, error_of,
}
use auto_ai.Common.Format.{format}

module _ {J : Type 0} where
  abbrev pub last : List (StreamEvent J) → Option (StreamEvent J)
  last [] = none
  last (ev ∷ []) = some ev
  last (ev ∷ next ∷ evs) = last (next ∷ evs)

  pub last-append :
      (evs : List (StreamEvent J)) (ev : StreamEvent J) → last (evs ++ ev ∷ []) ≡ some ev
  last-append [] ev = refl
  last-append (e ∷ []) ev = refl
  last-append (e ∷ next ∷ evs) ev = last-append (next ∷ evs) ev

  -- The last event tells how the run ended; an error of the client is not told.
  abbrev pub Told : {E : Type 0} → Outcome J E → Option (StreamEvent J) → Type 0
  Told (Outcome.finished r) ev =
      (ev ≡ some (StreamEvent.done r)) ⊎ (ev ≡ some (StreamEvent.cancelled r))
  Told (Outcome.failed (AgentError.client e)) ev = Unit
  Told (Outcome.failed (AgentError.max_turns_exceeded n)) ev =
      (message : String) × (ev ≡ some (StreamEvent.error message))
  Told (Outcome.failed (AgentError.loop_detected tool)) ev =
      (message : String) × (ev ≡ some (StreamEvent.error message))
  Told (Outcome.failed (AgentError.config e)) ev = ev ≡ some (StreamEvent.error e)

module _ (u : Setup) where
  abbrev TellsEnd : End u → State u → Type 0
  TellsEnd o s = Told o (last s.events)

  abbrev Tells : Turn u → Type 0
  Tells n = Ensures (λ s. Unit {0}) TellsEnd n

  stop_cancelled-Tells : (s : State u) → Tells (stop_cancelled u s)
  unfolding stop_cancelled
  stop_cancelled-Tells s =
      stops
        (inr (last-append (clear_steering_on_cancel u s).events (StreamEvent.cancelled s.result)))

  stop_loop-Tells : (tc : ToolCall u.json.Value) (s : State u) → Tells (stop_loop u tc s)
  stop_loop-Tells tc s =
      let message = format ("loop detected on '" ∷ tc.name ∷ "'" ∷ []) in
      stops (message, last-append s.events (StreamEvent.error message))

  guard_call-Tells :
      (tc : ToolCall u.json.Value) (count : ℕ) (s : State u) → Tells (guard_call u tc count s)
  unfolding guard_call
  guard_call-Tells tc count s = elim (Bool-cases (hints u tc count s)) [
    | inl hint ↦ rw hint (goes_on tt)
    | inr no_hint ↦ rw no_hint (elim (Bool-cases (leb (loop_terminate_threshold tc.name) count)) [
      | inl over ↦ rw over (stop_loop-Tells tc s)
      | inr under ↦ rw under (goes_on tt)
    ])
  ]

  call_tool-Tells : (tc : ToolCall u.json.Value) (s : State u) → Tells (call_tool u tc s)
  unfolding call_tool
  call_tool-Tells tc s =
      let count = suc (HashMap.get_or (key_of u tc.name tc.input) 0 s.seen) in
      guard_call-Tells tc count
        (record s { seen = HashMap.insert (key_of u tc.name tc.input) count s.seen })

  run_calls-Tells : (tcs : List (ToolCall u.json.Value)) (s : State u) → Tells (run_calls u tcs s)
  unfolding run_calls
  run_calls-Tells [] s = goes_on tt
  run_calls-Tells (tc ∷ tcs) s = elim (Bool-cases (read_cancel u s).0) [
    | inl cancels ↦ rw cancels (stop_cancelled-Tells _)
    | inr runs ↦ rw runs (Ensures-then_do (call_tool-Tells tc _) (λ s' _. run_calls-Tells tcs s'))
  ]

  use_tools-Tells :
      (turn : ℕ) (resp : CompletionResponse u.json.Value) (s : State u)
      → Tells (use_tools u turn resp s)
  unfolding use_tools
  use_tools-Tells turn resp s =
      Ensures-then_do (run_calls-Tells resp.tool_calls _) (λ s' _. goes_on tt)

  finish-Tells :
      (s : State u) → Tells (stop (Outcome.finished s.result) (emit (StreamEvent.done s.result) s))
  finish-Tells s = stops (inl (last-append s.events (StreamEvent.done s.result)))

  try_tools-Tells :
      (turn : ℕ) (resp : CompletionResponse u.json.Value) (s : State u)
      → Tells (try_tools u turn resp s)
  try_tools-Tells turn resp s = elim (Bool-cases (read_cancel u s).0) [
    | inl cancels ↦ rw cancels (stop_cancelled-Tells _)
    | inr runs ↦ rw runs (use_tools-Tells turn resp _)
  ]

  answer_turn-Tells :
      (turn : ℕ) (resp : CompletionResponse u.json.Value) (s : State u)
      → Tells (answer_turn u turn resp s)
  unfolding answer_turn
  answer_turn-Tells turn resp s = elim (Bool-cases (revive u (answered_state u resp s)).0) [
    | inl revived ↦ rw revived (goes_on tt)
    | inr ends ↦ rw ends (finish-Tells _)
  ]

  take_response-Tells :
      (turn : ℕ) (resp : CompletionResponse u.json.Value) (s : State u)
      → Tells (take_response u turn resp s)
  unfolding take_response
  take_response-Tells turn resp s = elim (Bool-cases (read_cancel u s).0) [
    | inl cancels ↦ rw cancels (stop_cancelled-Tells _)
    | inr runs ↦ rw runs (elim (Bool-cases (wants_tool resp)) [
      | inl asks ↦ rw asks (try_tools-Tells turn resp _)
      | inr answers ↦ rw answers (answer_turn-Tells turn resp _)
    ])
  ]

  -- A reply that is an error of the model was told; one of the client was not.
  abbrev ReplyTells : Reply u × State u → Type 0
  ReplyTells (replied resp, s) = Unit
  ReplyTells (errored e, s) = TellsEnd (Outcome.failed e) s

  settle_error-Tells :
      (err : Option String) (resp : CompletionResponse u.json.Value) (s : State u)
      → ReplyTells (settle_error u err resp s)
  settle_error-Tells none resp s = tt
  settle_error-Tells (some err) resp s = last-append s.events (StreamEvent.error err)

  settle-Tells :
      (answer : Answer u.json.Value u.client.Error) (s : State u) → ReplyTells (settle u answer s)
  settle-Tells (refused e) s = tt
  settle-Tells (answered resp) s = settle_error-Tells resp.error resp s

  retry-Tells :
      (answer : Answer u.json.Value u.client.Error) (compacted : Bool × State u)
      → ReplyTells (retry u answer compacted)
  retry-Tells answer (true, s) = settle-Tells (send u s).0 (send u s).1
  retry-Tells answer (false, s) = settle-Tells answer s

  recover-Tells :
      (err : Option String) (answer : Answer u.json.Value u.client.Error) (s : State u)
      → ReplyTells (recover u err answer s)
  recover-Tells none answer s = settle-Tells answer s
  recover-Tells (some err) answer s = elim (Bool-cases (overflows u s err)) [
    | inl over ↦ rw over (retry-Tells answer (try_compact u true s))
    | inr within ↦ rw within (settle-Tells answer s)
  ]

  request-Tells : (s : State u) → ReplyTells (request_with_recovery u s)
  unfolding request_with_recovery
  request-Tells s = recover-Tells (error_of u (send u s).0) (send u s).0 (send u s).1

  take_reply-Tells :
      (turn : ℕ) (reply : Reply u × State u) → ReplyTells reply → Tells (take_reply u turn reply)
  take_reply-Tells turn (replied resp, s) h = take_response-Tells turn resp s
  take_reply-Tells turn (errored e, s) h = stops h

  one_turn-Tells : (turn remaining : ℕ) (s : State u) → Tells (one_turn u turn remaining s)
  unfolding one_turn
  one_turn-Tells turn remaining s = elim (Bool-cases (read_cancel u s).0) [
    | inl cancels ↦ rw cancels (stop_cancelled-Tells _)
    | inr runs ↦ rw runs (
        take_reply-Tells turn (request_with_recovery u (ready u turn remaining (read_cancel u s).1))
          (request-Tells _))
  ]

  run_turns-Tells :
      (turn remaining : ℕ) (s : State u) → Ensures (λ s'. ⊥) TellsEnd (run_turns u turn remaining s)
  unfolding run_turns
  run_turns-Tells turn zero s =
      stops (cap_message u, last-append s.events (StreamEvent.error (cap_message u)))
  run_turns-Tells turn (suc remaining) s =
      Ensures-then_do (one_turn-Tells turn (suc remaining) s)
        (λ s' _. run_turns-Tells (suc turn) remaining s')

  -- Every run ends, and unless an error of the client ended it, its last event tells how: Done or
  -- Cancelled with the very result that is returned, or Error.
  pub run_inner-Told :
      (task : String) (a : Agent u.json.Value) (w : u.World)
      → Ends (λ o s. Told o (last s.events)) (run_inner u task a w)
  unfolding run_inner
  run_inner-Told task a w = Ends-of_Ensures (run_turns-Tells 0 (hard_limit u) _)
