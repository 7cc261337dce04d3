-- ===== src/Agent/RoleConfig/Write.antt =====
-- config/role_config.rs: a configuration that is written as a role block.
use auto_ai.Common.{ℕ, [], ◌∷◌, ◌%◌, none, some, String, List, Option, map, u32_mod}
use mathlib.Core.Option
use auto_ai.Config.Tier.{ModelTier}
use auto_ai.Config.Wire.{ModelCandidate}
use auto_ai.Agent.RoleConfig.{RoleConfig}
use auto_ai.Agent.RoleConfig.Values.{AutoVal}

abbrev pub tier_name : ModelTier → String
tier_name ModelTier.min = "min"
tier_name ModelTier.lite = "lite"
tier_name ModelTier.mid = "mid"
tier_name ModelTier.pro = "pro"
tier_name ModelTier.max = "max"

-- `as u32`
abbrev pub low32 : ℕ → ℕ
low32 n = n % u32_mod

module _ {F : Type 0} (V : AutoVal F) where
  abbrev pub string_array : List String → V.Value
  string_array items = V.array (map V.str items)

  abbrev pub uint32 : ℕ → V.Value
  uint32 n = V.uint (low32 n)

  abbrev pub tier_value : ModelTier → V.Value
  tier_value t = V.str (tier_name t)

  abbrev pub tier_array : List ModelTier → V.Value
  tier_array ts = V.array (map tier_value ts)

  abbrev pub candidate_value : ModelCandidate → V.Value
  candidate_value c = V.obj (("provider", V.str c.provider) ∷ ("model", V.str c.model) ∷ [])

  abbrev pub candidate_array : List ModelCandidate → V.Value
  candidate_array cs = V.array (map candidate_value cs)

  -- The properties in the order in which they are set, with the value where the field is there.
  unfoldable pub props : RoleConfig F → List (String × Option V.Value)
  props cfg =
      ("name", Option.map V.str cfg.name)
      ∷ ("description", Option.map V.str cfg.description)
      ∷ ("inherit", Option.map V.str cfg.inherit)
      ∷ ("model", Option.map V.str cfg.model)
      ∷ ("model_tier", Option.map tier_value cfg.model_tier)
      ∷ ("temperature", Option.map V.double cfg.temperature)
      ∷ ("max_turns", Option.map uint32 cfg.max_turns)
      ∷ ("memory_limit", Option.map uint32 cfg.memory_limit)
      ∷ ("system_prompt", Option.map V.str cfg.system_prompt)
      ∷ ("system_prompt_append", Option.map V.str cfg.system_prompt_append)
      ∷ ("tools", Option.map string_array cfg.tools)
      ∷ ("tools_append", Option.map string_array cfg.tools_append)
      ∷ ("soul_file", Option.map V.str cfg.soul_file)
      ∷ ("skills", Option.map string_array cfg.skills)
      ∷ ("token_budget", Option.map uint32 cfg.token_budget)
      ∷ ("allowed_tiers", Option.map tier_array cfg.allowed_tiers)
      ∷ ("thinking_level", Option.map V.str cfg.thinking_level)
      ∷ ("models", Option.map candidate_array cfg.models)
      ∷ []

  -- `if let Some(v) = … { node.set_prop(k, v) }`
  abbrev pub set_some : String → Option V.Value → V.Node → V.Node
  set_some k none n = n
  set_some k (some v) n = V.set_prop k v n

  abbrev pub set_props : List (String × Option V.Value) → V.Node → V.Node
  set_props [] n = n
  set_props ((k, v) ∷ ps) n = set_props ps (set_some k v n)

  unfoldable pub serialize_at_role : RoleConfig F → V.Source
  unfolding props
  serialize_at_role cfg = V.to_at_source (set_props (props cfg) (V.new "role"))
