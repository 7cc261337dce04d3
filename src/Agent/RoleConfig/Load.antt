-- ===== src/Agent/RoleConfig/Load.antt =====
-- config/role_config.rs: the role of a configuration. `load_builtin`, the library of roles, is a
-- parameter; `three_tenths` is the double nearest to 0.3.
use auto_ai.Common.{[], ◌∷◌, ◌++◌, none, some, String, List, Option, unwrap_or, or}
use auto_ai.Common.Format.{format}
use auto_ai.Common.Results.{Result, ok, err, ◌>>=◌}
use auto_ai.Config.Tier.{ModelTier}
use auto_ai.Agent.Role.{Role}
use auto_ai.Agent.Run.{AgentError}
use auto_ai.Agent.RoleConfig.{RoleConfig}
use auto_ai.Agent.RoleConfig.Values.{AutoVal}
use auto_ai.Agent.RoleConfig.Read.{parse_at_role}

-- A prompt with the text that is appended to it.
abbrev pub with_extra : String → Option String → String
with_extra prompt none = prompt
with_extra prompt (some extra) = format (prompt ∷ "\n" ∷ extra ∷ [])

-- The base's tools, where it has any.
abbrev pub own_tools : List String → Option (List String)
own_tools [] = none
own_tools (t ∷ ts) = some (t ∷ ts)

abbrev pub resolve_tools :
    Option (List String) → Option (List String) → List String → Option (List String)
resolve_tools (some replace) extra base = some replace
resolve_tools none (some extra) base = some (base ++ extra)
resolve_tools none none base = own_tools base

module _ {F : Type 0} (three_tenths : F) where
  -- `ConfigRole`: its own methods, and those of the trait for the rest.
  unfoldable pub config_role : RoleConfig F → String → Role F
  config_role cfg prompt = record {
    name = unwrap_or cfg.name "config";
    system_prompt = prompt;
    model_tier = unwrap_or cfg.model_tier ModelTier.mid;
    model = unwrap_or cfg.model "";
    models = unwrap_or cfg.models [];
    temperature = unwrap_or cfg.temperature three_tenths;
    max_turns = unwrap_or cfg.max_turns 10;
    allowed_tools = unwrap_or cfg.tools [];
    memory_limit = or cfg.memory_limit (some 20);
    allowed_tiers = unwrap_or cfg.allowed_tiers [];
    token_budget = cfg.token_budget;
    skills = unwrap_or cfg.skills [];
    handoff_to = [];
    dispatchable_to = [];
    approval_gates = [];
    preferred_provider = none;
    thinking_level = cfg.thinking_level;
  }

  unfoldable pub resolve : RoleConfig F → Role F → RoleConfig F
  resolve merged base = record {
    name = some (unwrap_or merged.name base.name);
    description = merged.description;
    model = merged.model;
    model_tier = some (unwrap_or merged.model_tier base.model_tier);
    temperature = some (unwrap_or merged.temperature base.temperature);
    max_turns = some (unwrap_or merged.max_turns base.max_turns);
    system_prompt = none;
    system_prompt_append = none;
    tools = resolve_tools merged.tools merged.tools_append base.allowed_tools;
    tools_append = none;
    inherit = none;
    memory_limit = some (unwrap_or merged.memory_limit (unwrap_or base.memory_limit 20));
    allowed_tiers = some (unwrap_or merged.allowed_tiers base.allowed_tiers);
    skills = some (unwrap_or merged.skills base.skills);
    token_budget = or merged.token_budget base.token_budget;
    soul_file = merged.soul_file;
    thinking_level = or merged.thinking_level base.thinking_level;
    models = some (unwrap_or merged.models base.models);
  }

  module _ {E : Type 0} (load_builtin : String → Option (Role F)) where
    unfoldable pub over_builtin :
        RoleConfig F → String → Option (Role F) → Result (AgentError E) (Role F)
    unfolding config_role resolve
    over_builtin cfg base_name none =
        err (AgentError.config (format ("inherit: builtin '" ∷ base_name ∷ "' not found" ∷ [])))
    over_builtin cfg base_name (some base) =
        ok (config_role (resolve cfg base) (with_extra base.system_prompt cfg.system_prompt_append))

    unfoldable pub on_its_own : RoleConfig F → Option String → Result (AgentError E) (Role F)
    unfolding config_role
    on_its_own cfg none =
        err (AgentError.config "role config without 'inherit' must set 'system_prompt'")
    on_its_own cfg (some prompt) = ok (config_role cfg (with_extra prompt cfg.system_prompt_append))

    abbrev pub of_inherit : RoleConfig F → Option String → Result (AgentError E) (Role F)
    of_inherit cfg none = on_its_own cfg cfg.system_prompt
    of_inherit cfg (some base_name) = over_builtin cfg base_name (load_builtin base_name)

    unfoldable pub role_of : RoleConfig F → Result (AgentError E) (Role F)
    role_of cfg = of_inherit cfg cfg.inherit

    unfoldable pub load_role : (V : AutoVal F) → V.Source → Result (AgentError E) (Role F)
    unfolding parse_at_role role_of
    load_role V content = do cfg ← parse_at_role V content; role_of cfg
