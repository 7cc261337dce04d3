-- ===== src/Agent/Run/Paired.antt =====
-- The histories of a run, and the wire format of providers.
use auto_ai.Common.HashMap
use auto_ai.Common.{
  zero, suc, false, none, some, string_eq, arith, [], ◌∷◌, String, List, Option, ◌≡◌, Bool-cases,
  inl, inr, leb, ℕ, ◌∙◌, ◌&&◌, ltb,
}
use auto_ai.Agent.Run.{
  Outcome, AgentError, Setup, State, stop_cancelled, clear_steering_on_cancel, Turn, End,
  read_cancel, Agent, arrive_steering, arrive_follow_ups,
}
use auto_ai.Agent.Run.Rules.{
  Ensures, Ensures-then_do, Ends, goes_on, stops, request_with_recovery-memory,
  request_with_recovery-Kept, Ends-of_Ensures,
}
use auto_ai.Config.Wire.{CompletionResponse, ToolCall, wants_tool, Usage}
use auto_ai.Agent.Run.Batch.{
  run_calls, call_tool, guard_call, correct, run_tool, record_output, key_of, hints,
}
use auto_ai.Agent.Repair.{loop_terminate_threshold, repair_orphan_tool_uses}
use auto_ai.Agent.Run.Loop.{
  use_tools, one_turn, run_inner, run_turns, answer_turn, take_response, note_usage, count_usage,
  try_tools, ready, revive, take_reply, prepare, answered_state, hard_limit, compacts, start,
}
use auto_ai.Agent.Run.Request.{request_with_recovery, Reply, replied, errored}
use auto_ai.Agent.Run.Pairing.{
  Leaves-add_users, ids_of, IsPaired, Leaves-asked, Leaves-result, Leaves-add_cancelled,
  Leaves-add_assistant, Leaves, Leaves-add_user,
}

module _ (u : Setup) where
  -- Compaction is off, and the memory leaves these calls open.
  pub record Waits (ids : List String) (s : State u) : Type 0 where
    pub memory : Leaves ids s.agent.memory
    pub uncompacted : s.agent.compaction_enabled ≡ false

  -- How the history is left at the end: paired, unless the cycle guard stopped the run.
  abbrev pub LeftPaired : End u → State u → Type 0
  LeftPaired (Outcome.finished r) s = IsPaired s.agent.memory.messages
  LeftPaired (Outcome.failed (AgentError.loop_detected tool)) s = Unit
  LeftPaired (Outcome.failed (AgentError.client e)) s = IsPaired s.agent.memory.messages
  LeftPaired (Outcome.failed (AgentError.max_turns_exceeded n)) s = IsPaired s.agent.memory.messages
  LeftPaired (Outcome.failed (AgentError.config e)) s = IsPaired s.agent.memory.messages

  abbrev Pairs : List String → Turn u → Type 0
  Pairs ids n = Ensures (Waits ids) LeftPaired n

  clear_steering-memory :
      (s : State u) → (clear_steering_on_cancel u s).agent.memory ≡ s.agent.memory
  unfolding clear_steering_on_cancel
  clear_steering-memory s = ground arith

  stop_cancelled-Pairs :
      {ids : List String} (s : State u) → Leaves [] s.agent.memory → Pairs ids (stop_cancelled u s)
  unfolding stop_cancelled
  stop_cancelled-Pairs s h = stops (rw (clear_steering-memory s) h.open_calls)

  call_tool-Pairs :
      (tc : ToolCall u.json.Value) {ids : List String} (s : State u)
      → Waits (tc.id ∷ ids) s
      → Pairs ids (call_tool u tc s)
  unfolding call_tool guard_call correct run_tool record_output
  call_tool-Pairs tc s h =
      let count = suc (HashMap.get_or (key_of u tc.name tc.input) 0 s.seen) in
      elim (Bool-cases (hints u tc count s)) [
        | inl hint ↦ rw hint (
            goes_on
              (record { memory = Leaves-result tc.id _ h.memory; uncompacted = h.uncompacted }))
        | inr no_hint ↦
            rw no_hint (elim (Bool-cases (leb (loop_terminate_threshold tc.name) count)) [
              | inl over ↦ rw over (stops tt)
              | inr under ↦ rw under (
                  goes_on (record {
                    memory = Leaves-result tc.id _ h.memory;
                    uncompacted = h.uncompacted;
                  }))
            ])
      ]

  run_calls-Pairs :
      (tcs : List (ToolCall u.json.Value)) (s : State u)
      → Waits (ids_of tcs) s
      → Pairs [] (run_calls u tcs s)
  unfolding run_calls
  run_calls-Pairs [] s h = goes_on h
  run_calls-Pairs (tc ∷ tcs) s h = elim (Bool-cases (read_cancel u s).0) [
    | inl cancels ↦ rw cancels (stop_cancelled-Pairs _ (Leaves-add_cancelled (tc ∷ tcs) h.memory))
    | inr goes ↦ rw goes (
        Ensures-then_do
          (call_tool-Pairs tc _ (record { memory = h.memory; uncompacted = h.uncompacted }))
          (λ s' h'. run_calls-Pairs tcs s' h'))
  ]

  use_tools-Pairs :
      (turn : ℕ) (resp : CompletionResponse u.json.Value) (s : State u)
      → Waits [] s
      → Pairs [] (use_tools u turn resp s)
  unfolding use_tools
  use_tools-Pairs turn resp s h =
      Ensures-then_do
        (run_calls-Pairs resp.tool_calls _
          (record { memory = Leaves-asked resp h.memory; uncompacted = h.uncompacted }))
        (λ s' h'. goes_on (record { memory = h'.memory; uncompacted = h'.uncompacted }))

  try_tools-Pairs :
      (turn : ℕ) (resp : CompletionResponse u.json.Value) (s : State u)
      → Waits [] s
      → Pairs [] (try_tools u turn resp s)
  try_tools-Pairs turn resp s h = elim (Bool-cases (read_cancel u s).0) [
    | inl cancels ↦ rw cancels (stop_cancelled-Pairs _ h.memory)
    | inr goes ↦
        rw goes
          (use_tools-Pairs turn resp _ (record { memory = h.memory; uncompacted = h.uncompacted }))
  ]

  revived-Waits :
      (resp : CompletionResponse u.json.Value) (s : State u)
      → Waits [] s
      → Waits [] (revive u (answered_state u resp s)).1
  revived-Waits resp s h = record {
    memory =
        Leaves-add_users (arrive_follow_ups u s).agent.follow_ups
          (Leaves-add_assistant resp.content h.memory);
    uncompacted = h.uncompacted;
  }

  answer_turn-Pairs :
      (turn : ℕ) (resp : CompletionResponse u.json.Value) (s : State u)
      → Waits [] s
      → Pairs [] (answer_turn u turn resp s)
  unfolding answer_turn
  answer_turn-Pairs turn resp s h =
      let h' = revived-Waits resp s h in
      elim (Bool-cases (revive u (answered_state u resp s)).0) [
        | inl revived ↦
            rw revived (goes_on (record { memory = h'.memory; uncompacted = h'.uncompacted }))
        | inr ends ↦ rw ends (stops h'.memory.open_calls)
      ]

  note_usage-Waits :
      (usage : Option Usage) (s : State u) → Waits [] s → Waits [] (note_usage u usage s)
  note_usage-Waits none s h = h
  note_usage-Waits (some usage) s h = record { memory = h.memory; uncompacted = h.uncompacted }

  count_usage-Leaves :
      (usage : Option Usage) (s : State u)
      → Leaves [] s.agent.memory
      → Leaves [] (count_usage u usage s).agent.memory
  count_usage-Leaves none s h = h
  count_usage-Leaves (some usage) s h = h

  read_cancel-Waits : (s : State u) → Waits [] s → Waits [] (read_cancel u s).1
  read_cancel-Waits s h = record { memory = h.memory; uncompacted = h.uncompacted }

  take_response-Pairs :
      (turn : ℕ) (resp : CompletionResponse u.json.Value) (s : State u)
      → Waits [] s
      → Pairs [] (take_response u turn resp s)
  unfolding take_response
  take_response-Pairs turn resp s h = elim (Bool-cases (read_cancel u s).0) [
    | inl cancels ↦
        rw cancels
          (stop_cancelled-Pairs _ (count_usage-Leaves resp.usage (read_cancel u s).1 h.memory))
    | inr goes ↦
        let h' = note_usage-Waits resp.usage (read_cancel u s).1 (read_cancel-Waits s h) in
        rw goes (elim (Bool-cases (wants_tool resp)) [
          | inl asks ↦ rw asks (try_tools-Pairs turn resp _ h')
          | inr answers ↦ rw answers (answer_turn-Pairs turn resp _ h')
        ])
  ]

  failed-Paired :
      (e : AgentError u.client.Error) (s : State u)
      → IsPaired s.agent.memory.messages
      → LeftPaired (Outcome.failed e) s
  failed-Paired (AgentError.client e) s h = h
  failed-Paired (AgentError.max_turns_exceeded n) s h = h
  failed-Paired (AgentError.loop_detected tool) s h = tt
  failed-Paired (AgentError.config e) s h = h

  take_reply-Pairs :
      (turn : ℕ) (reply : Reply u × State u) → Waits [] reply.1 → Pairs [] (take_reply u turn reply)
  take_reply-Pairs turn (replied resp, s) h = take_response-Pairs turn resp s h
  take_reply-Pairs turn (errored e, s) h = stops (failed-Paired e s h.memory.open_calls)

  ready-Waits :
      (turn remaining : ℕ) (s : State u) → Waits [] s → Waits [] (ready u turn remaining s)
  ready-Waits turn remaining s h =
      let mem = Leaves-add_users (arrive_steering u s).agent.steering h.memory in
      elim (Bool-cases (leb remaining 5 && ltb 1 remaining)) [
        | inl near ↦ rw near (record { memory = mem; uncompacted = h.uncompacted })
        | inr far ↦ rw far (record { memory = mem; uncompacted = h.uncompacted })
      ]

  request-Waits : (s : State u) → Waits [] s → Waits [] (request_with_recovery u s).1
  request-Waits s h = record {
    memory = rw (request_with_recovery-memory u s h.uncompacted) h.memory;
    uncompacted = (request_with_recovery-Kept u s).enabled ∙ h.uncompacted;
  }

  one_turn-Pairs :
      (turn remaining : ℕ) (s : State u) → Waits [] s → Pairs [] (one_turn u turn remaining s)
  unfolding one_turn
  one_turn-Pairs turn remaining s h = elim (Bool-cases (read_cancel u s).0) [
    | inl cancels ↦ rw cancels (stop_cancelled-Pairs _ h.memory)
    | inr goes ↦ rw goes (
        take_reply-Pairs turn (request_with_recovery u (ready u turn remaining (read_cancel u s).1))
          (request-Waits _
            (ready-Waits turn remaining (read_cancel u s).1 (read_cancel-Waits s h))))
  ]

  run_turns-Pairs :
      (turn remaining : ℕ) (s : State u)
      → Waits [] s
      → Ensures (λ s'. ⊥) LeftPaired (run_turns u turn remaining s)
  unfolding run_turns
  run_turns-Pairs turn zero s h = stops h.memory.open_calls
  run_turns-Pairs turn (suc remaining) s h =
      Ensures-then_do (one_turn-Pairs turn (suc remaining) s h)
        (λ s' h'. run_turns-Pairs (suc turn) remaining s' h')

  compacts-false : (s : State u) → s.agent.compaction_enabled ≡ false → compacts u s ≡ false
  compacts-false s off = ground arith

  prepare-Waits :
      (task : String) (a : Agent u.json.Value) (w : u.World)
      → a.compaction_enabled ≡ false
      → Leaves [] (repair_orphan_tool_uses a.memory)
      → Waits [] (prepare u task a w)
  prepare-Waits task a w off h =
      let s = start u (record a { memory = repair_orphan_tool_uses a.memory }) w in
      rw (compacts-false s off) (record { memory = Leaves-add_user task h; uncompacted = off })

  -- In an agent whose memory has no limit and that does not compact: where the repaired history is
  -- paired (each call followed by its result, in order), so is the history that a run leaves,
  -- however it ends, unless the cycle guard stops it.
  pub run_inner-Paired :
      (task : String) (a : Agent u.json.Value) (w : u.World)
      → a.compaction_enabled ≡ false
      → Leaves [] (repair_orphan_tool_uses a.memory)
      → Ends LeftPaired (run_inner u task a w)
  unfolding run_inner
  run_inner-Paired task a w off h =
      Ends-of_Ensures (run_turns-Pairs 0 (hard_limit u) _ (prepare-Waits task a w off h))
