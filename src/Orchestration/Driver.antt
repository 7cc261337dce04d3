-- ===== src/Orchestration/Driver.antt =====
-- orchestration/driver.rs: the loop that joins the engine to the agents. The factory, the agents
-- that it builds and the gate handler are the application's: they are parameters, told the number
-- of the round so that they may behave differently each time. Locks, channels and log lines are
-- left out; the events stand in the order in which they are emitted.
pub mod Loop
pub mod Rounds
pub mod Termination
use Prim.Native.String.{◌++◌ as str_append}
use auto_ai.Common.{
  ℕ, zero, suc, ◌+◌, ◌*◌, String, List, [], ◌∷◌, ◌++◌, Option, none, some, Bool, true, false, ◌||◌,
  ◌==◌, ◌⊎◌, string_eq, if◌then◌else◌, unwrap_or,
}
use auto_ai.Orchestration.Budget.{BudgetAction, warning, check}
use auto_ai.Orchestration.Flow.{FlowSpec}
use auto_ai.Orchestration.Handoff.{HandoffDocument, WorkProduct, new_handoff, render}
use auto_ai.Orchestration.Pipeline.{
  AdvanceResult, execute_step, wait_for_human, GateDecision, approve, PipelineEngine, Step, advance,
  new_engine,
}
use auto_ai.Orchestration.Pipeline.Submit.{submit_handoff}
use auto_ai.Orchestration.Pipeline.Control.{resolve_gate}

-- The events that matter to the driver; it drops the others.
pub data StreamEvent : Type 0 where
  delta : String → StreamEvent
  tool : String → String → StreamEvent  -- tool, result
  other : StreamEvent

pub data PipelineEvent : Type 0 where
  step_started : String → String → PipelineEvent  -- step_id, role_id
  delta : String → PipelineEvent
  tool : String → String → PipelineEvent  -- tool, result
  step_completed : String → HandoffDocument → PipelineEvent
  gate_waiting : String → PipelineEvent
  completed : PipelineEvent
  failed : String → PipelineEvent
  paused : String → String → PipelineEvent  -- step_id, reason
  budget_warning : ℕ → PipelineEvent

-- The stream callback: what it passes on, and what it collects.
unfoldable pub forward : List StreamEvent → List PipelineEvent
forward [] = []
forward (delta text ∷ evs) = PipelineEvent.delta text ∷ forward evs
forward (tool name result ∷ evs) = PipelineEvent.tool name result ∷ forward evs
forward (other ∷ evs) = forward evs

unfoldable pub collect : List StreamEvent → String
collect [] = ""
collect (delta text ∷ evs) = str_append text (collect evs)
collect (tool _ _ ∷ evs) = collect evs
collect (other ∷ evs) = collect evs

-- `chars().take(n)`
unfoldable pub take_chars : ℕ → String → String
take_chars zero s = ""
take_chars (suc n) String.[] = ""
take_chars (suc n) (String.◌∷◌ c s) = String.◌∷◌ c (take_chars n s)

-- `J` is a JSON value.
pub record ToolCallRecord (J : Type 0) : Type 0 where
  pub tool : String
  pub args : J
  pub result : String

pub record AgentResult (J : Type 0) : Type 0 where
  pub output : String
  pub turns : ℕ
  pub tool_calls : List (ToolCallRecord J)
  pub total_tokens : ℕ  -- u64

pub data AgentError : Type 0 where
  config : String → AgentError
  agent : String → AgentError  -- any error of a run, in words

-- A run streams its events, and ends with a result or an error.
pub record Run (J : Type 0) : Type 0 where
  pub stream : List StreamEvent
  pub outcome : AgentResult J ⊎ AgentError

pub data Built (J : Type 0) : Type 0 where
  refused : String → Built J
  built : (String → Run J) → Built J

-- What the application supplies, and the clock.
pub record App (J : Type 0) : Type 0 where
  pub str_arg : String → J → Option String  -- `args.get(k)` and then `as_str`
  pub build_agent : ℕ → String → Option HandoffDocument → Built J
  pub gate_handler : Option (ℕ → String → GateDecision)
  pub clock : ℕ → ℕ

module _ {J : Type 0} (app : App J) where
  work_products : List (ToolCallRecord J) → List WorkProduct
  work_products [] = []
  work_products (tc ∷ tcs) =
      if tc.tool == "write_file" || tc.tool == "edit_file"
      then record {
        path = unwrap_or (app.str_arg "path" tc.args) "?";
        description = tc.tool;
        lines = none;
      }
        ∷ work_products tcs
      else work_products tcs

  unfoldable pub build_handoff : String → AgentResult J → String → HandoffDocument
  unfolding work_products
  build_handoff role_id result content =
      let h = new_handoff role_id "" in
      record h {
        summary = take_chars 200 content;
        work_product = work_products result.tool_calls;
        token_usage = record {
          step_tokens = result.total_tokens;
          cumulative = h.token_usage.cumulative;
          budget_remaining = h.token_usage.budget_remaining;
        };
      }
