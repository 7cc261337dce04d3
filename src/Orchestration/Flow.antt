-- ===== src/Orchestration/Flow.antt =====
-- orchestration/flow.rs: declarative flows.
use auto_ai.Common.{
  ℕ, String, List, [], ◌∷◌, ◌++◌, Option, none, some, ◌==◌, string_eq, Bool, position, find,
}

pub data GateType : Type 0 where
  auto human : GateType

pub data ExitRouting : Type 0 where
  next : ExitRouting
  loop : String → ℕ → ExitRouting  -- target_step_id, max_iterations (u32)

pub record FlowStep : Type 0 where
  pub id : String
  pub role_id : String
  pub gate : GateType
  pub max_turns : Option ℕ
  pub exit : ExitRouting
  pub token_budget : Option ℕ

pub record FlowSpec : Type 0 where
  pub id : String
  pub steps : List FlowStep

unfoldable pub new_flow : String → FlowSpec
new_flow id = record { id = id; steps = [] }

unfoldable pub add_step : FlowSpec → FlowStep → FlowSpec
add_step flow step = record flow { steps = flow.steps ++ step ∷ [] }

abbrev pub has_id : String → FlowStep → Bool
has_id step_id s = s.id == step_id

unfoldable pub get_step : FlowSpec → String → Option FlowStep
get_step flow step_id = find (has_id step_id) flow.steps

unfoldable pub get_step_index : FlowSpec → String → Option ℕ
get_step_index flow step_id = position (has_id step_id) flow.steps

unfoldable pub new_step : String → String → FlowStep
new_step id role_id = record {
  id = id;
  role_id = role_id;
  gate = auto;
  max_turns = none;
  exit = next;
  token_budget = none;
}

unfoldable pub with_gate : FlowStep → GateType → FlowStep
with_gate s gate = record s { gate = gate }

unfoldable pub with_exit : FlowStep → ExitRouting → FlowStep
with_exit s exit = record s { exit = exit }

unfoldable pub with_budget : FlowStep → ℕ → FlowStep
with_budget s budget = record s { token_budget = some budget }
