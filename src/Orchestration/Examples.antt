-- ===== src/Orchestration/Examples.antt =====
-- A flow with a human gate and a loop, run as the tests of the orchestration modules run theirs,
-- and the theorems at it.
use auto_ai.Common.{
  ◌≡◌, refl, String, List, [], ◌∷◌, none, some, string_eq, inl, if◌then◌else◌, ◌==◌, ◌++◌,
}
use auto_ai.Orchestration.Budget.{new_budget}
use auto_ai.Orchestration.Flow.{FlowSpec, FlowStep, human, auto, next, loop}
use auto_ai.Orchestration.Handoff.{new_handoff}
use auto_ai.Orchestration.Pipeline.{
  PipelineEngine, running, waiting_for_human, reject, approve, with_budget, advance, execute_step,
  fail,
}
use auto_ai.Orchestration.Pipeline.Control.{resolve_gate, feedback_for}
use auto_ai.Orchestration.Pipeline.Invariant.{IsValid, Sound, advance-Sound}
use auto_ai.Orchestration.Pipeline.Operations.{
  advances, submits, resolves, pauses, resumes, Operation, perform_all,
}
use auto_ai.Orchestration.Pipeline.Preservation.{Holds?, perform_all-with_budget_IsValid}
use auto_ai.Orchestration.Pipeline.Gates.{resolve_gate-feedback, resolve_gate-fail, feedback_of}
use auto_ai.Orchestration.Driver.{App, built}
use auto_ai.Orchestration.Pipeline.Accounts.{Accounted}
use auto_ai.Orchestration.Pipeline.Ledger.{perform_all-with_budget-Accounted}

abbrev advise : FlowStep
advise = record {
  id = "advise";
  role_id = "assistant";
  gate = human;
  max_turns = none;
  exit = next;
  token_budget = none;
}

abbrev code : FlowStep
code = record {
  id = "code";
  role_id = "coder";
  gate = auto;
  max_turns = none;
  exit = loop "advise" 2;
  token_budget = none;
}

abbrev gated : FlowSpec
gated = record { id = "gated"; steps = advise ∷ code ∷ [] }

abbrev history : List Operation
history =
    advances 10
    ∷ resolves 11 (reject "needs detail")
    ∷ submits 12 (new_handoff "assistant" "")
    ∷ pauses
    ∷ resumes 13
    ∷ []

-- The engine that waits at its first gate since time 10.
abbrev waiting : PipelineEngine
unfolding with_budget
waiting = record (with_budget gated "run" (new_budget 1000)) {
  status = waiting_for_human "advise" 10;
  pending_gate = some (record { step_id = "advise"; since = 10 });
}

perform_all-with_budget_IsValid_example :
    Holds? IsValid (perform_all history (with_budget gated "run" (new_budget 1000)))
perform_all-with_budget_IsValid_example =
    perform_all-with_budget_IsValid history gated "run" (new_budget 1000)

perform_all-with_budget-Accounted_example :
    Holds? Accounted (perform_all history (with_budget gated "run" (new_budget 1000)))
perform_all-with_budget-Accounted_example =
    perform_all-with_budget-Accounted history gated "run" (new_budget 1000)

waiting-IsValid : IsValid waiting
unfolding with_budget
waiting-IsValid = (advise, refl, refl, refl)

advance-Sound_example : Sound (advance 20 waiting)
advance-Sound_example = advance-Sound 20 waiting waiting-IsValid

resolve_gate-feedback_example :
    (role : String) × (e' : PipelineEngine) × (resolve_gate 11 (reject "needs detail") waiting
      ≡ some (e', execute_step "advise" role))
    × (e'.status ≡ running "advise" role 11)
    × (e'.pending_gate ≡ none)
    × ((j : String)
        → feedback_for j e' ≡ (
            if "advise" == j
            then feedback_for j waiting ++ feedback_of (reject "needs detail")
            else feedback_for j waiting))
unfolding with_budget
resolve_gate-feedback_example =
    resolve_gate-feedback 11 (reject "needs detail") waiting "advise" 10 waiting-IsValid refl

resolve_gate-fail_example :
    (role : String) × (e' : PipelineEngine) × (resolve_gate 11 approve
        (fail "agent: boom" waiting).0
      ≡ some (e', execute_step "advise" role))
    × (resolve_gate 11 approve waiting ≡ some (e', execute_step "advise" role))
unfolding with_budget
resolve_gate-fail_example =
    resolve_gate-fail 11 approve "agent: boom" waiting "advise" 10 waiting-IsValid refl

-- An application whose agents stream nothing and report 5 tokens.
abbrev quiet : App String
quiet = record {
  str_arg = λ k j. some j;
  build_agent = λ n role h. built λ input. record {
    stream = [];
    outcome = inl (record { output = input; turns = 1; tool_calls = []; total_tokens = 5 });
  };
  gate_handler = none;
  clock = λ n. n;
}
