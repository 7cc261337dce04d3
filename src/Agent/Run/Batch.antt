-- ===== src/Agent/Run/Batch.antt =====
-- agent.rs: the tool calls of one response, run in their order.
use auto_ai.Common.{
  ℕ, suc, String, List, [], ◌∷◌, ◌++◌, not, ◌&&◌, ◌==◌, string_eq, if◌then◌else◌, leb, Bool,
}
use auto_ai.Common.BTreeSet.{mem}
use auto_ai.Common.Format.{format, show}
use auto_ai.Common.HashMap
use auto_ai.Config.Wire.{ToolCall, ContentBlock, CompletionResponse, result}
use auto_ai.Agent.Memory.{Memory, add_message}
use auto_ai.Agent.Repair.{loop_detect_threshold, loop_terminate_threshold, truncate_tool_result}
use auto_ai.Agent.Tools.{ToolError, ToolResult, ToolOutput, output_text, show_tool_error, execute}
use auto_ai.Agent.Run.{
  AgentError, StreamEvent, Setup, State, Turn, Outcome, go_on, stop, ◌then_do◌, emit, set_memory,
  read_cancel, stop_cancelled,
}

module _ {J : Type 0} where
  abbrev pub call_block : ToolCall J → ContentBlock J
  call_block tc = ContentBlock.tool_use tc.id tc.name tc.input

  abbrev pub call_blocks : List (ToolCall J) → List (ContentBlock J)
  call_blocks [] = []
  call_blocks (tc ∷ tcs) = call_block tc ∷ call_blocks tcs

  -- The assistant's message of a response that asks for tools.
  abbrev pub assistant_blocks : CompletionResponse J → List (ContentBlock J)
  assistant_blocks resp =
      if resp.content == ""
      then call_blocks resp.tool_calls
      else ContentBlock.text resp.content ∷ call_blocks resp.tool_calls

  -- Placeholders for the calls that a cancelled run does not answer.
  abbrev pub add_cancelled : List (ToolCall J) → Memory J → Memory J
  add_cancelled [] mem = mem
  add_cancelled (tc ∷ tcs) mem =
      add_cancelled tcs (add_message (result tc.id "[cancelled by user]") mem)

abbrev pub denied_text : (kind path root hint : String) → String
denied_text kind path root hint = format (
    "[security denied (" ∷ kind ∷ ")] '" ∷ path ∷ "' is outside the workspace root '" ∷ root ∷ "'. "
    ∷ hint ∷ " (workspace 外的文件 AI 无法读取，请让用户提供内容或改用 API)" ∷ [])

abbrev pub insist_text : String → ℕ → String
insist_text base n = format (
    base
    ∷ "\n\n⚠ 已连续 "
    ∷ show n
    ∷ " 次尝试访问 workspace 外路径被拒。请立即换思路（让用户提供内容，或改用 API），不要再试读 workspace 外文件。"
    ∷ [])

abbrev pub denied_output : String → ℕ → String
denied_output base n = if leb 3 n then insist_text base n else base

abbrev pub cycle_correction_hint : String → String → ℕ → String
cycle_correction_hint name args count = format (
    "cycle guard: '"
    ∷ name
    ∷ "' has now been called "
    ∷ show count
    ∷ " times with identical args ("
    ∷ args
    ∷ "). Do NOT call it the same way again — change the parameters, use a different tool, or answer directly from the results you already have. One more identical call will terminate this run."
    ∷ [])

module _ (u : Setup) where
  abbrev pub key_of : String → u.json.Value → String
  key_of name input = format (name ∷ "::" ∷ u.json.to_string input ∷ [])

  -- The output that stands for the result of a tool, and the count of security errors in a row.
  abbrev pub output_of : ToolResult u.json.Value → ℕ → ToolOutput u.json.Value × ℕ
  output_of (ToolResult.ran out) n = (out, 0)
  output_of (ToolResult.failed (ToolError.security_denied kind path root hint)) n =
      (output_text (denied_output (denied_text kind path root hint) (suc n)), suc n)
  output_of (ToolResult.failed (ToolError.args e)) n =
      (output_text (format ("[tool error: " ∷ show_tool_error (ToolError.args e) ∷ "]" ∷ [])), n)
  output_of (ToolResult.failed (ToolError.exec e)) n =
      (output_text (format ("[tool error: " ∷ show_tool_error (ToolError.exec e) ∷ "]" ∷ [])), n)

  -- A result of a tool is recorded, told, and put into the memory without what is too long.
  unfoldable pub record_output : ToolCall u.json.Value → ToolOutput u.json.Value → State u → State u
  record_output tc out s =
      set_memory (add_message (result tc.id (truncate_tool_result out.content)) s.agent.memory) (
        emit (StreamEvent.tool tc.name tc.input out.content out.details) (record s {
          result = record s.result {
            tool_calls =
                s.result.tool_calls
                ++ record { tool = tc.name; args = tc.input; result = out.content } ∷ [];
          };
        }))

  unfoldable pub run_tool : ToolCall u.json.Value → State u → State u
  run_tool tc s =
      let s' = emit (StreamEvent.tool_start tc.name tc.input) s in
      let (res, w) = execute u.tools tc.name tc.input s'.world in
      let (out, errors) = output_of res s'.security_errors in
      record_output tc out (record s' { world = w; security_errors = errors })

  -- The one correction that a repeated call gets in place of its result.
  unfoldable pub correct : ToolCall u.json.Value → ℕ → State u → State u
  correct tc count s =
      let key = key_of tc.name tc.input in
      let hint = cycle_correction_hint tc.name (u.json.to_string tc.input) count in
      emit
        (StreamEvent.warning (
          format (
            "cycle guard: '"
            ∷ tc.name
            ∷ "' called "
            ∷ show count
            ∷ "x with identical args — correction hint injected"
            ∷ [])))
        (set_memory (add_message (result tc.id hint) s.agent.memory)
          (record s { corrected = key ∷ s.corrected }))

  abbrev pub stop_loop : ToolCall u.json.Value → State u → Turn u
  stop_loop tc s =
      stop (Outcome.failed (AgentError.loop_detected tc.name))
        (emit (StreamEvent.error (format ("loop detected on '" ∷ tc.name ∷ "'" ∷ []))) s)

  -- Is the call a repeat that was not corrected yet?
  abbrev pub hints : ToolCall u.json.Value → ℕ → State u → Bool
  hints tc count s =
      leb loop_detect_threshold count && not (mem (key_of tc.name tc.input) s.corrected)

  -- One call, which its key counts for the `count`-th time.
  unfoldable pub guard_call : ToolCall u.json.Value → ℕ → State u → Turn u
  guard_call tc count s =
      if hints tc count s
      then go_on (correct tc count s)
      else if leb (loop_terminate_threshold tc.name) count
      then stop_loop tc s
      else go_on (run_tool tc s)

  unfoldable pub call_tool : ToolCall u.json.Value → State u → Turn u
  call_tool tc s =
      let key = key_of tc.name tc.input in
      let count = suc (HashMap.get_or key 0 s.seen) in
      guard_call tc count (record s { seen = HashMap.insert key count s.seen })

  -- The calls are cancelled from the next one on.
  abbrev pub cancel_calls : List (ToolCall u.json.Value) → State u → Turn u
  cancel_calls tcs s = stop_cancelled u (set_memory (add_cancelled tcs s.agent.memory) s)

  unfoldable pub run_calls : List (ToolCall u.json.Value) → State u → Turn u
  run_calls [] s = go_on s
  run_calls (tc ∷ tcs) s =
      let (flag, s') = read_cancel u s in
      let rest = call_tool tc s' then_do run_calls tcs in
      if flag then cancel_calls (tc ∷ tcs) s' else rest
