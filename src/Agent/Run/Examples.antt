-- ===== src/Agent/Run/Examples.antt =====
-- The theorems about runs, with a model that first calls a tool and then answers. The world counts
-- the requests.
use auto_ai.Common.{
  ℕ, [], ◌∷◌, none, some, false, refl, string_eq, arith, String, List, if◌then◌else◌, ltb, ◌+◌, ◌≡◌,
  ◌≤◌, ◌<◌,
}
use auto_ai.Common.HashMap
use auto_ai.Common.Format.{format}
use auto_ai.Agent.Tools.{execute}
use auto_ai.Agent.Run.Loop.{run_turns, one_turn, take_response, use_tools, answer_turn}
use auto_ai.Agent.Run.Batch.{run_calls, call_tool, guard_call, run_tool, record_output, correct}
use auto_ai.Agent.Run.Request.{request_with_recovery}
use auto_ai.Config.Wire.{CompletionResponse, ToolCall}
use auto_ai.Agent.Compaction.{Json}
use auto_ai.Agent.Compaction.Compact.{Client, Answer}
use auto_ai.Agent.Role.{default_role}
use auto_ai.Agent.Tools.{Tool, ToolResult, output_text, register}
use auto_ai.Agent.Run.{
  Setup, Agent, Outcome, new_agent, set_compaction_enabled, stop, Next, Session, go_on,
}
use auto_ai.Agent.Run.Rules.{Ends}
use auto_ai.Agent.Run.Turns.{Within, run_inner-Within}
use auto_ai.Agent.Run.Book.{runs}
use auto_ai.Agent.Repair.{repair_orphan_tool_uses, loop_terminate_threshold}
use auto_ai.Agent.Run.Paired.{LeftPaired, run_inner-Paired}
use auto_ai.Agent.Run.Told.{Told, last, run_inner-Told}
use auto_ai.Agent.Run.Answered.{Undisturbed, run_inner-Answered}
use auto_ai.Agent.Run.Loop.{run_inner, hard_limit}
use auto_ai.Agent.Run.Pairing.{Leaves}
use auto_ai.Agent.Run.Guard.{run_inner-runs}
use auto_ai.Orchestration.Driver.{ToolCallRecord}

abbrev json : Json
json = record { Value = String; to_string = λ v. v; field_str = λ v k. some v }

abbrev answer : CompletionResponse String
answer = record {
  content = "done";
  tool_calls = [];
  stop_reason = none;
  usage = none;
  model = "m";
  error = none;
  model_meta = none;
}

abbrev call : ToolCall String
call = record { id = "1"; name = "echo"; input = "{}" }

abbrev asking : CompletionResponse String
asking = record answer { content = ""; tool_calls = call ∷ [] }

abbrev client : Client json
client = record {
  Double = ℕ;
  zero_temperature = 0;
  Error = String;
  show_error = λ e. e;
  to_lowercase = λ s. s;
  complete = λ r. Answer.answered answer;
}

abbrev echo : Tool String ℕ
echo = record {
  name = "echo";
  description = "gives its input back";
  parameters = "{}";
  execute = λ w v. (ToolResult.ran (output_text v), w);
}

-- The model asks for the tool as often as `asks` says, and then answers.
abbrev setup : ℕ → Setup
setup asks = record {
  json = json;
  client = client;
  World = ℕ;
  complete = λ w r. Answer.answered answer;
  completed = λ w. w;
  complete_stream = λ w r. ([], (Answer.answered (if ltb w asks then asking else answer), w + 1));
  cancelled = λ w. (false, w);
  steered = λ w. ([], w);
  followed_up = λ w. ([], w);
  role = default_role 3 "coder" "You write code.";
  tools = register echo [];
}

abbrev agent : Agent String
agent = set_compaction_enabled false (new_agent none)

calm : Undisturbed (setup 0) answer
calm = record {
  uncancelled = λ w. refl;
  no_follow_up = λ w. refl;
  answers = λ w r. ground arith;
  no_error = refl;
  no_calls = refl;
}

limit_above : 0 < hard_limit (setup 0)
unfolding hard_limit
limit_above = omega arith

run_inner-Answered_example :
    Ends
      (λ o s. (o ≡ Outcome.finished s.result) × (s.result.output ≡ "done") × (s.result.turns ≡ 1))
      (run_inner (setup 0) "say done" agent 0)
run_inner-Answered_example = run_inner-Answered (setup 0) calm "say done" agent 0 limit_above refl

run_inner-Within_example :
    Ends
      (λ o s. Within (setup 1) (hard_limit (setup 1)) o s.result.turns)
      (run_inner (setup 1) "echo" agent 0)
run_inner-Within_example = run_inner-Within (setup 1) "echo" agent 0

run_inner-Told_example : Ends (λ o s. Told o (last s.events)) (run_inner (setup 1) "echo" agent 0)
run_inner-Told_example = run_inner-Told (setup 1) "echo" agent 0

run_inner-runs_example :
    Ends
      (λ o s.
        (tool key : String)
        → runs (setup 9) tool key s.result.tool_calls + 2 ≤ loop_terminate_threshold tool)
      (run_inner (setup 9) "echo" agent 0)
run_inner-runs_example = run_inner-runs (setup 9) "echo" agent 0

new-Leaves : Leaves [] (repair_orphan_tool_uses agent.memory)
unfolding repair_orphan_tool_uses
new-Leaves = record { unlimited = refl; open_calls = refl }

run_inner-Paired_example : Ends (LeftPaired (setup 1)) (run_inner (setup 1) "echo" agent 0)
run_inner-Paired_example = run_inner-Paired (setup 1) "echo" agent 0 refl new-Leaves

abbrev output_and_calls :
    Next (Session String ℕ) (Outcome String String) → String × List (ToolCallRecord String)
output_and_calls (go_on s) = ("", [])
output_and_calls (stop (Outcome.finished r) s) = (r.output, r.tool_calls)
output_and_calls (stop (Outcome.failed e) s) = ("failed", s.result.tool_calls)

-- One call is run, and then the answer comes.
one-call :
    output_and_calls (run_inner (setup 1) "echo" agent 0)
    ≡ ("done", record { tool = "echo"; args = "{}"; result = "{}" } ∷ [])
unfolding run_inner run_turns hard_limit one_turn request_with_recovery take_response use_tools
    run_calls call_tool guard_call HashMap.get run_tool record_output execute HashMap.insert
    answer_turn
one-call = refl

-- The fourth identical call ends the run; the third one was corrected, and two were run.
cycle : output_and_calls (run_inner (setup 9) "echo" agent 0) ≡ (
  "failed",
  record { tool = "echo"; args = "{}"; result = "{}" }
      ∷ record { tool = "echo"; args = "{}"; result = "{}" }
      ∷ [],
)
unfolding run_inner run_turns hard_limit one_turn request_with_recovery take_response use_tools
    run_calls call_tool guard_call HashMap.get run_tool record_output execute HashMap.insert format
    correct
cycle = refl
