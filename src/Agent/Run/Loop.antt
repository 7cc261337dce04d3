-- ===== src/Agent/Run/Loop.antt =====
-- agent.rs: `run_inner`, the loop of an agent.
use auto_ai.Common.{
  ℕ, zero, suc, ◌*◌, ◌-◌, ◌%◌, String, List, [], ◌∷◌, Option, none, some, Bool, true, false, not,
  ◌&&◌, string_eq, if◌then◌else◌, leb, ltb, length, add32, add64, u32_mod, u64_mod,
}
use auto_ai.Common.Format.{format, show}
use auto_ai.Config.Wire.{Usage, CompletionResponse, wants_tool, total_tokens}
use auto_ai.Orchestration.Driver.{AgentResult}
use auto_ai.Agent.Memory.{add, add_message}
use auto_ai.Agent.Compaction.{should_compact, estimate_tokens}
use auto_ai.Agent.Repair.{repair_orphan_tool_uses}
use auto_ai.Agent.Run.{
  Agent, AgentError, StreamEvent, Setup, State, Turn, Outcome, go_on, stop, ◌then_do◌, emit,
  set_agent, set_memory, read_cancel, arrive_steering, arrive_follow_ups, stop_cancelled, add_users,
  no_result,
}
use auto_ai.Agent.Run.Request.{Reply, replied, errored, request_with_recovery, try_compact}
use auto_ai.Agent.Run.Batch.{assistant_blocks, run_calls}

-- `turn as u32 + 1`
abbrev pub turn_number : ℕ → ℕ
turn_number turn = add32 (turn % u32_mod) 1

abbrev is_empty : List String → Bool
is_empty [] = true
is_empty (_ ∷ _) = false

module _ (u : Setup) where
  abbrev pub set_result : AgentResult u.json.Value → State u → State u
  set_result r s = record s { result = r }

  abbrev pub count_usage : Option Usage → State u → State u
  count_usage none s = s
  count_usage (some usage) s =
      set_result
        (record s.result { total_tokens = add64 s.result.total_tokens (total_tokens usage) }) s

  abbrev pub note_usage : Option Usage → State u → State u
  note_usage none s = s
  note_usage (some usage) s =
      set_agent (record s.agent { last_usage = some usage }) (count_usage (some usage) s)

  abbrev pub end_turn : ℕ → Option Usage → ℕ → State u → State u
  end_turn turn usage n s = emit (StreamEvent.turn_end (turn_number turn) usage (n % u32_mod)) s

  -- The tool calls of a response: recorded as the assistant's message, then run.
  unfoldable pub use_tools : ℕ → CompletionResponse u.json.Value → State u → Turn u
  use_tools turn resp s =
      run_calls u resp.tool_calls (
        set_memory
          (add_message (record { role = "assistant"; content = assistant_blocks resp })
            s.agent.memory)
          s)
      then_do λ s'. go_on (end_turn turn resp.usage (length resp.tool_calls) s')

  -- Checkpoint 3, before any call is recorded.
  abbrev pub try_tools : ℕ → CompletionResponse u.json.Value → State u → Turn u
  try_tools turn resp s =
      let (flag, s') = read_cancel u s in
      if flag then stop_cancelled u s' else use_tools turn resp s'

  -- The queue of follow-ups is drained; whether there was one.
  abbrev pub revive : State u → Bool × State u
  revive s =
      let s' = arrive_follow_ups u s in
      let msgs = s'.agent.follow_ups in
      (
        not (is_empty msgs),
        set_agent (record s'.agent { follow_ups = []; memory = add_users msgs s'.agent.memory }) s',
      )

  abbrev pub answered_state : CompletionResponse u.json.Value → State u → State u
  answered_state resp s =
      set_memory (add "assistant" resp.content s.agent.memory)
        (set_result (record s.result { output = resp.content }) s)

  -- An answer without tool calls ends the run, unless a follow-up revives it.
  unfoldable pub answer_turn : ℕ → CompletionResponse u.json.Value → State u → Turn u
  answer_turn turn resp s =
      let (revived, s2) = revive (answered_state resp s) in
      let s3 = end_turn turn resp.usage 0 s2 in
      if revived
      then go_on s3
      else stop (Outcome.finished s3.result) (emit (StreamEvent.done s3.result) s3)

  -- Checkpoint 2, then what the response asks for.
  unfoldable pub take_response : ℕ → CompletionResponse u.json.Value → State u → Turn u
  take_response turn resp s =
      let (flag, s') = read_cancel u s in
      if flag
      then stop_cancelled u (count_usage resp.usage s')
      else if wants_tool resp
      then try_tools turn resp (note_usage resp.usage s')
      else answer_turn turn resp (note_usage resp.usage s')

  abbrev pub take_reply : ℕ → Reply u × State u → Turn u
  take_reply turn (replied resp, s) = take_response turn resp s
  take_reply turn (errored e, s) = stop (Outcome.failed e) s

  abbrev pub drain_steering : State u → State u
  drain_steering s =
      let s' = arrive_steering u s in
      set_agent
        (record s'.agent { steering = []; memory = add_users s'.agent.steering s'.agent.memory }) s'

  abbrev pub warn_cap : ℕ → State u → State u
  warn_cap remaining s =
      if leb remaining 5 && ltb 1 remaining
      then emit
          (StreamEvent.warning
            (format (show (remaining - 1) ∷ " turns until the hard stop — wrap up now." ∷ [])))
          s
      else s

  abbrev pub start_turn : ℕ → ℕ → State u → State u
  start_turn turn remaining s = warn_cap remaining (
      emit (StreamEvent.turn_start (turn_number turn))
        (set_result (record s.result { turns = suc turn }) s))

  -- The state in which a turn sends its request.
  abbrev pub ready : ℕ → ℕ → State u → State u
  ready turn remaining s = start_turn turn remaining (drain_steering s)

  -- One pass of the loop: `turn` counts from 0, and `remaining` is `hard_limit - turn`.
  unfoldable pub one_turn : ℕ → ℕ → State u → Turn u
  one_turn turn remaining s =
      let (flag, s') = read_cancel u s in
      if flag
      then stop_cancelled u s'
      else take_reply turn (request_with_recovery u (ready turn remaining s'))

  unfoldable pub hard_limit : ℕ
  hard_limit = u.role.max_turns * 5 % u64_mod

  abbrev pub cap_message : String
  cap_message = format (
      "hard turn cap ("
      ∷ show hard_limit
      ∷ ") exceeded (soft limit was "
      ∷ show u.role.max_turns
      ∷ ")"
      ∷ [])

  abbrev pub exceeded : State u → Turn u
  exceeded s =
      stop (Outcome.failed (AgentError.max_turns_exceeded hard_limit))
        (emit (StreamEvent.error cap_message) s)

  unfoldable pub run_turns : ℕ → ℕ → State u → Turn u
  run_turns turn zero s = exceeded s
  run_turns turn (suc remaining) s =
      one_turn turn (suc remaining) s then_do run_turns (suc turn) remaining

  abbrev pub compacts : State u → Bool
  compacts s =
      s.agent.compaction_enabled
      && should_compact (estimate_tokens u.json s.agent.memory.messages s.agent.last_usage)
          s.agent.compaction

  abbrev pub compact_first : State u → State u
  compact_first s = if compacts s then (try_compact u false s).1 else s

  abbrev pub start : Agent u.json.Value → u.World → State u
  start a w = record {
    agent = a;
    world = w;
    events = [];
    result = no_result;
    seen = [];
    corrected = [];
    security_errors = 0;
  }

  abbrev pub prepare : String → Agent u.json.Value → u.World → State u
  prepare task a w =
      let s = compact_first (start (record a { memory = repair_orphan_tool_uses a.memory }) w) in
      set_memory (add "user" task s.agent.memory) s

  -- A run ends, after at most `hard_limit` turns.
  unfoldable pub run_inner : String → Agent u.json.Value → u.World → Turn u
  run_inner task a w = run_turns 0 hard_limit (prepare task a w)
