-- ===== src/Agent/Role.antt =====
-- role_def.rs: what an agent is configured by. A temperature is a double, of the type `F`.
use auto_ai.Common.{ℕ, [], none, some, String, List, Option}
use auto_ai.Config.Tier.{ModelTier}
use auto_ai.Config.Wire.{ModelCandidate}

pub record Role (F : Type 0) : Type 0 where
  pub name : String
  pub system_prompt : String
  pub model_tier : ModelTier
  pub model : String
  pub models : List ModelCandidate
  pub temperature : F
  pub max_turns : ℕ
  pub allowed_tools : List String
  pub memory_limit : Option ℕ
  pub allowed_tiers : List ModelTier
  pub token_budget : Option ℕ
  pub skills : List String
  pub handoff_to : List String
  pub dispatchable_to : List String
  pub approval_gates : List String
  pub preferred_provider : Option String
  pub thinking_level : Option String

-- The methods that the trait gives; `three_tenths` is the double nearest to 0.3.
abbrev pub default_role : {F : Type 0} → F → String → String → Role F
default_role three_tenths name system_prompt = record {
  name = name;
  system_prompt = system_prompt;
  model_tier = ModelTier.mid;
  model = "";
  models = [];
  temperature = three_tenths;
  max_turns = 10;
  allowed_tools = [];
  memory_limit = some 20;
  allowed_tiers = [];
  token_budget = none;
  skills = [];
  handoff_to = [];
  dispatchable_to = [];
  approval_gates = [];
  preferred_provider = none;
  thinking_level = none;
}
