-- ===== src/Agent/RoleConfig.antt =====
-- config/role_config.rs: the configuration of a role, and how two of them are merged. A temperature is
-- a double, of the type `F`.
mod Examples
pub mod Values
pub mod Read
pub mod Write
pub mod Load
pub mod Fields
pub mod RoundTrip
pub mod Merged
pub mod Inherited
use auto_ai.Common.{ℕ, [], ◌∷◌, ◌++◌, none, some, String, List, Option, unwrap_or, or}
use auto_ai.Common.Format.{format}
use auto_ai.Config.Tier.{ModelTier}
use auto_ai.Config.Wire.{ModelCandidate}

pub record RoleConfig (F : Type 0) : Type 0 where
  pub name : Option String
  pub description : Option String
  pub model : Option String
  pub model_tier : Option ModelTier
  pub temperature : Option F
  pub max_turns : Option ℕ
  pub system_prompt : Option String
  pub system_prompt_append : Option String
  pub tools : Option (List String)
  pub tools_append : Option (List String)
  pub inherit : Option String
  pub memory_limit : Option ℕ
  pub allowed_tiers : Option (List ModelTier)
  pub skills : Option (List String)
  pub token_budget : Option ℕ
  pub soul_file : Option String
  pub thinking_level : Option String
  pub models : Option (List ModelCandidate)

-- The text that is appended: the base's, then the one on top of it.
abbrev pub append_extra : (base mine : Option String) → Option String
append_extra none mine = mine
append_extra (some extra) none = some extra
append_extra (some extra) (some mine) = some (format (extra ∷ "\n" ∷ mine ∷ []))

abbrev pub extend_tools : Option (List String) → Option (List String) → Option (List String)
extend_tools tools none = tools
extend_tools tools (some extra) = some (unwrap_or tools [] ++ extra)

module _ {F : Type 0} where
  abbrev pub default_config : RoleConfig F
  default_config = record {
    name = none;
    description = none;
    model = none;
    model_tier = none;
    temperature = none;
    max_turns = none;
    system_prompt = none;
    system_prompt_append = none;
    tools = none;
    tools_append = none;
    inherit = none;
    memory_limit = none;
    allowed_tiers = none;
    skills = none;
    token_budget = none;
    soul_file = none;
    thinking_level = none;
    models = none;
  }

  -- The base's own `tools_append` stays.
  unfoldable pub merge_over : RoleConfig F → RoleConfig F → RoleConfig F
  merge_over self base = record {
    name = or self.name base.name;
    description = or self.description base.description;
    model = or self.model base.model;
    model_tier = or self.model_tier base.model_tier;
    temperature = or self.temperature base.temperature;
    max_turns = or self.max_turns base.max_turns;
    system_prompt = or self.system_prompt base.system_prompt;
    system_prompt_append = append_extra base.system_prompt_append self.system_prompt_append;
    tools = extend_tools (or self.tools base.tools) self.tools_append;
    tools_append = base.tools_append;
    inherit = or self.inherit base.inherit;
    memory_limit = or self.memory_limit base.memory_limit;
    allowed_tiers = or self.allowed_tiers base.allowed_tiers;
    skills = or self.skills base.skills;
    token_budget = or self.token_budget base.token_budget;
    soul_file = or self.soul_file base.soul_file;
    thinking_level = or self.thinking_level base.thinking_level;
    models = or self.models base.models;
  }
