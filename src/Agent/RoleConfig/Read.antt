-- ===== src/Agent/RoleConfig/Read.antt =====
-- config/role_config.rs: a role block that is read. The fields of `RoleDecl` are read by name, in the
-- order of their declaration.
use auto_ai.Common.{
  ℕ, [], ◌∷◌, none, some, string_eq, String, List, Option, if◌then◌else◌, ◌==◌, ◌||◌,
}
use mathlib.Core.Option
use auto_ai.Common.Format.{format}
use auto_ai.Common.Results.{Result, ok, err, ◌>>=◌, map_err}
use auto_ai.Config.Tier.{ModelTier, parse_name}
use auto_ai.Config.Wire.{ModelCandidate}
use auto_ai.Agent.Run.{AgentError}
use auto_ai.Agent.RoleConfig.{RoleConfig}
use auto_ai.Agent.RoleConfig.Values.{AutoVal, Atom}

unfoldable pub parse_tier : String → Option ModelTier
parse_tier s = parse_name s

abbrev pub add_known : Option ModelTier → List ModelTier → List ModelTier
add_known none ts = ts
add_known (some t) ts = t ∷ ts

-- `filter_map(|s| parse_tier(&s))`
unfoldable pub known_tiers : List String → List ModelTier
known_tiers [] = []
known_tiers (s ∷ names) = add_known (parse_tier s) (known_tiers names)

-- `and_then(|s| parse_tier(&s))`
abbrev pub tier_of : Option String → Option ModelTier
tier_of none = none
tier_of (some s) = parse_tier s

pub record RoleDecl (F : Type 0) : Type 0 where
  pub name : Option String
  pub description : Option String
  pub model : Option String
  pub model_tier : Option String
  pub temperature : Option F
  pub max_turns : Option ℕ
  pub memory_limit : Option ℕ
  pub system_prompt : Option String
  pub system_prompt_append : Option String
  pub inherit : Option String
  pub tools : Option (List String)
  pub tools_append : Option (List String)
  pub allowed_tiers : Option (List String)
  pub skills : Option (List String)
  pub token_budget : Option ℕ
  pub soul_file : Option String
  pub thinking_level : Option String
  pub models : Option (List ModelCandidate)

-- The configuration of a declaration. On 64 bits a `u64` is a `usize`.
abbrev pub to_config : {F : Type 0} → RoleDecl F → RoleConfig F
to_config d = record {
  name = d.name;
  description = d.description;
  model = d.model;
  model_tier = tier_of d.model_tier;
  temperature = d.temperature;
  max_turns = d.max_turns;
  system_prompt = d.system_prompt;
  system_prompt_append = d.system_prompt_append;
  tools = d.tools;
  tools_append = d.tools_append;
  inherit = d.inherit;
  memory_limit = d.memory_limit;
  allowed_tiers = Option.map known_tiers d.allowed_tiers;
  skills = d.skills;
  token_budget = d.token_budget;
  soul_file = d.soul_file;
  thinking_level = d.thinking_level;
  models = d.models;
}

module _ {F : Type 0} (V : AutoVal F) where
  -- What serde does with a field of type `Option` that has a default.
  abbrev pub read_opt :
      {A : Type 0}
      → (V.Value → Result String (Option A))
      → Option V.Value
      → Result String (Option A)
  read_opt read none = ok none
  read_opt read (some v) = read v

  unfoldable pub field :
      {A : Type 0}
      → (V.Value → Result String (Option A))
      → String
      → V.Node
      → Result String (Option A)
  field read k n = read_opt read (V.prop k n)

  -- `ModelCandidate::deserialize`, `Vec<A>::deserialize` over the values of an array
  unfoldable pub read_candidate : V.Value → Result String ModelCandidate
  read_candidate v = do
    provider ← V.read_field "provider" v
    model ← V.read_field "model" v
    ok (record { provider = provider; model = model })

  unfoldable pub read_all : List V.Value → Result String (List ModelCandidate)
  unfolding read_candidate
  read_all [] = ok []
  read_all (v ∷ vs) = do c ← read_candidate v; cs ← read_all vs; ok (c ∷ cs)

  abbrev all_of : Option (List V.Value) → Result String (Option (List ModelCandidate))
  all_of none = ok none
  all_of (some vs) = do cs ← read_all vs; ok (some cs)

  unfoldable pub read_candidates : V.Value → Result String (Option (List ModelCandidate))
  unfolding read_all
  read_candidates v = do vs ← V.read_vec v; all_of vs

  unfoldable pub deserialize : V.Node → Result String (RoleDecl F)
  unfolding field read_candidates
  deserialize n = do
    name ← field V.read_string "name" n
    description ← field V.read_string "description" n
    model ← field V.read_string "model" n
    model_tier ← field V.read_string "model_tier" n
    temperature ← field V.lenient_f64 "temperature" n
    max_turns ← field V.read_u64 "max_turns" n
    memory_limit ← field V.read_u64 "memory_limit" n
    system_prompt ← field V.read_string "system_prompt" n
    system_prompt_append ← field V.read_string "system_prompt_append" n
    inherit ← field V.read_string "inherit" n
    tools ← field V.string_or_list "tools" n
    tools_append ← field V.string_or_list "tools_append" n
    allowed_tiers ← field V.string_or_list "allowed_tiers" n
    skills ← field V.string_or_list "skills" n
    token_budget ← field V.read_u64 "token_budget" n
    soul_file ← field V.read_string "soul_file" n
    thinking_level ← field V.read_string "thinking_level" n
    models ← field read_candidates "models" n
    ok (record {
      name = name;
      description = description;
      model = model;
      model_tier = model_tier;
      temperature = temperature;
      max_turns = max_turns;
      memory_limit = memory_limit;
      system_prompt = system_prompt;
      system_prompt_append = system_prompt_append;
      inherit = inherit;
      tools = tools;
      tools_append = tools_append;
      allowed_tiers = allowed_tiers;
      skills = skills;
      token_budget = token_budget;
      soul_file = soul_file;
      thinking_level = thinking_level;
      models = models;
    })

  module _ {E : Type 0} where
    -- The node of a role block. The source compares the name with "role" twice.
    unfoldable pub role_node : Atom V.Node → Result (AgentError E) V.Node
    role_node (Atom.node n) =
        if V.name n == "role" || V.name n == "role"
        then ok n
        else err (
            AgentError.config (
              format ("expected a 'role' (or legacy 'role') block, found '" ∷ V.name n ∷ "'" ∷ [])))
    role_node (Atom.other shown) =
        err (AgentError.config (format ("expected a 'role' node, found " ∷ shown ∷ [])))

    abbrev parse_failed : String → AgentError E
    parse_failed e = AgentError.config (format ("failed to parse role .at: " ∷ e ∷ []))

    abbrev deserialize_failed : String → AgentError E
    deserialize_failed e =
        AgentError.config (format ("failed to deserialize role block: " ∷ e ∷ []))

    unfoldable pub parse_at_role : V.Source → Result (AgentError E) (RoleConfig F)
    unfolding role_node deserialize
    parse_at_role content = do
      atom ← map_err parse_failed (V.parse content)
      node ← role_node atom
      d ← map_err deserialize_failed (deserialize node)
      ok (to_config d)
