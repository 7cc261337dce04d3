-- ===== src/Agent/RoleConfig/RoundTrip.antt =====
-- A configuration that is written and read back.
use auto_ai.Common.{
  ℕ, [], ◌∷◌, none, some, refl, ◌∙◌, ap, ◌≡◌, string_eq, String, List, Option, map,
}
use mathlib.Core.Option
use auto_ai.Common.Results.{Result, ok, ok_then}
use auto_ai.Config.Tier.{ModelTier, parse_name}
use auto_ai.Config.Wire.{ModelCandidate}
use auto_ai.Agent.RoleConfig.{RoleConfig}
use auto_ai.Agent.RoleConfig.Values.{AutoVal, AutoValLaws, Atom}
use auto_ai.Agent.RoleConfig.Read.{
  RoleDecl, field, read_opt, read_all, read_candidate, read_candidates, deserialize, parse_tier,
  tier_of, add_known, known_tiers, to_config, parse_at_role, role_node,
}
use auto_ai.Agent.RoleConfig.Write.{
  tier_name, low32, uint32, tier_array, string_array, candidate_value, candidate_array, props,
  set_props, serialize_at_role, tier_value,
}
use auto_ai.Agent.RoleConfig.Fields.{lookup, prop-set_props, differs, name-set_props}

parse_tier-tier_name : (t : ModelTier) → parse_tier (tier_name t) ≡ some t
unfolding parse_tier parse_name
parse_tier-tier_name ModelTier.min = refl
parse_tier-tier_name ModelTier.lite = refl
parse_tier-tier_name ModelTier.mid = refl
parse_tier-tier_name ModelTier.pro = refl
parse_tier-tier_name ModelTier.max = refl

tier_of-tier_name : (o : Option ModelTier) → tier_of (Option.map tier_name o) ≡ o
tier_of-tier_name none = refl
tier_of-tier_name (some t) = parse_tier-tier_name t

known_tiers-tier_name : (ts : List ModelTier) → known_tiers (map tier_name ts) ≡ ts
unfolding known_tiers
known_tiers-tier_name [] = refl
known_tiers-tier_name (t ∷ ts) =
    ap (λ o. add_known o (known_tiers (map tier_name ts))) (parse_tier-tier_name t)
    ∙ ap (◌∷◌ t) (known_tiers-tier_name ts)

known_tiers-allowed :
    (o : Option (List ModelTier)) → Option.map known_tiers (Option.map (map tier_name) o) ≡ o
known_tiers-allowed none = refl
known_tiers-allowed (some ts) = ap some (known_tiers-tier_name ts)

module _ {F : Type 0} where
  -- What remains of a configuration in a file: of its three numbers the lower 32 bits.
  abbrev pub as_stored : RoleConfig F → RoleConfig F
  as_stored cfg = record cfg {
    max_turns = Option.map low32 cfg.max_turns;
    memory_limit = Option.map low32 cfg.memory_limit;
    token_budget = Option.map low32 cfg.token_budget;
  }

  abbrev decl_of : RoleConfig F → RoleDecl F
  decl_of cfg = record {
    name = cfg.name;
    description = cfg.description;
    model = cfg.model;
    model_tier = Option.map tier_name cfg.model_tier;
    temperature = cfg.temperature;
    max_turns = Option.map low32 cfg.max_turns;
    memory_limit = Option.map low32 cfg.memory_limit;
    system_prompt = cfg.system_prompt;
    system_prompt_append = cfg.system_prompt_append;
    inherit = cfg.inherit;
    tools = cfg.tools;
    tools_append = cfg.tools_append;
    allowed_tiers = Option.map (map tier_name) cfg.allowed_tiers;
    skills = cfg.skills;
    token_budget = Option.map low32 cfg.token_budget;
    soul_file = cfg.soul_file;
    thinking_level = cfg.thinking_level;
    models = cfg.models;
  }

  to_config-decl_of : (cfg : RoleConfig F) → to_config (decl_of cfg) ≡ as_stored cfg
  to_config-decl_of cfg =
      rw (tier_of-tier_name cfg.model_tier, known_tiers-allowed cfg.allowed_tiers)

module _ {F : Type 0} {V : AutoVal F} (laws : AutoValLaws V) where
  read_opt-map :
      {A B : Type 0} (read : V.Value → Result String (Option A)) (write : B → V.Value) (f : B → A)
      → ((b : B) → read (write b) ≡ ok (some (f b)))
      → (o : Option B) → read_opt V read (Option.map write o) ≡ ok (Option.map f o)
  read_opt-map read write f h none = refl
  read_opt-map read write f h (some b) = h b

  read_opt-same :
      {A : Type 0} (read : V.Value → Result String (Option A)) (write : A → V.Value)
      → ((a : A) → read (write a) ≡ ok (some a))
      → (o : Option A) → read_opt V read (Option.map write o) ≡ ok o
  read_opt-same read write h none = refl
  read_opt-same read write h (some a) = h a

  tier_array-names : (ts : List ModelTier) → map (tier_value V) ts ≡ map V.str (map tier_name ts)
  tier_array-names [] = refl
  tier_array-names (t ∷ ts) = ap (◌∷◌ (V.str (tier_name t))) (tier_array-names ts)

  read_candidate-value : (c : ModelCandidate) → read_candidate V (candidate_value V c) ≡ ok c
  unfolding read_candidate
  read_candidate-value c = ok_then _ (laws.read_field-first "provider" c.provider _) (
      ok_then _
        (laws.read_field-later "model" "provider" _ _ (differs "model" "provider" refl)
          ∙ laws.read_field-first "model" c.model _)
        refl)

  read_all-values : (cs : List ModelCandidate) → read_all V (map (candidate_value V) cs) ≡ ok cs
  unfolding read_all
  read_all-values [] = refl
  read_all-values (c ∷ cs) = rw (read_candidate-value c, read_all-values cs)

  read_candidates-array :
      (cs : List ModelCandidate) → read_candidates V (candidate_array V cs) ≡ ok (some cs)
  unfolding read_candidates
  read_candidates-array cs =
      rw (laws.read_vec-array (map (candidate_value V) cs), read_all-values cs)

  -- A field of the node of a configuration.
  field-node :
      {A : Type 0} (read : V.Value → Result String (Option A)) (k : String) (cfg : RoleConfig F)
      → field V read k (set_props V (props V cfg) (V.new "role"))
        ≡ read_opt V read (lookup k (props V cfg))
  unfolding field props
  field-node read k cfg =
      ap (read_opt V read)
        (prop-set_props laws k (props V cfg) (V.new "role") refl (laws.prop-new k "role"))

  text_field :
      (k : String) (o : Option String) (cfg : RoleConfig F)
      → lookup k (props V cfg) ≡ Option.map V.str o
      → field V V.read_string k (set_props V (props V cfg) (V.new "role")) ≡ ok o
  text_field k o cfg h =
      field-node V.read_string k cfg
      ∙ ap (read_opt V V.read_string) h
      ∙ read_opt-same V.read_string V.str laws.read_string-str o

  number_field :
      (k : String) (o : Option ℕ) (cfg : RoleConfig F)
      → lookup k (props V cfg) ≡ Option.map (uint32 V) o
      → field V V.read_u64 k (set_props V (props V cfg) (V.new "role")) ≡ ok (Option.map low32 o)
  number_field k o cfg h =
      field-node V.read_u64 k cfg
      ∙ ap (read_opt V V.read_u64) h
      ∙ read_opt-map V.read_u64 (uint32 V) low32 (λ n. laws.read_u64-uint (low32 n)) o

  list_field :
      (k : String) (o : Option (List String)) (cfg : RoleConfig F)
      → lookup k (props V cfg) ≡ Option.map (string_array V) o
      → field V V.string_or_list k (set_props V (props V cfg) (V.new "role")) ≡ ok o
  list_field k o cfg h =
      field-node V.string_or_list k cfg
      ∙ ap (read_opt V V.string_or_list) h
      ∙ read_opt-same V.string_or_list (string_array V) laws.string_or_list-array o

  tier_array-read :
      (ts : List ModelTier) → V.string_or_list (tier_array V ts) ≡ ok (some (map tier_name ts))
  tier_array-read ts =
      ap (λ vs. V.string_or_list (V.array vs)) (tier_array-names ts)
      ∙ laws.string_or_list-array (map tier_name ts)

  deserialize-props :
      (cfg : RoleConfig F)
      → deserialize V (set_props V (props V cfg) (V.new "role")) ≡ ok (decl_of cfg)
  unfolding deserialize props
  deserialize-props cfg = ok_then _ (text_field "name" cfg.name cfg refl) (
      ok_then _ (text_field "description" cfg.description cfg refl) (
        ok_then _ (text_field "model" cfg.model cfg refl) (
          ok_then _
            (field-node V.read_string "model_tier" cfg
              ∙ read_opt-map V.read_string (tier_value V) tier_name
                  (λ t. laws.read_string-str (tier_name t)) cfg.model_tier)
            (ok_then _
              (field-node V.lenient_f64 "temperature" cfg
                ∙ read_opt-same V.lenient_f64 V.double laws.lenient_f64-double cfg.temperature)
              (ok_then _ (number_field "max_turns" cfg.max_turns cfg refl) (
                ok_then _ (number_field "memory_limit" cfg.memory_limit cfg refl) (
                  ok_then _ (text_field "system_prompt" cfg.system_prompt cfg refl) (
                    ok_then _ (text_field "system_prompt_append" cfg.system_prompt_append cfg refl)
                      (ok_then _ (text_field "inherit" cfg.inherit cfg refl) (
                        ok_then _ (list_field "tools" cfg.tools cfg refl) (
                          ok_then _ (list_field "tools_append" cfg.tools_append cfg refl) (
                            ok_then _
                              (field-node V.string_or_list "allowed_tiers" cfg
                                ∙ read_opt-map V.string_or_list (tier_array V) (map tier_name)
                                    tier_array-read cfg.allowed_tiers)
                              (ok_then _ (list_field "skills" cfg.skills cfg refl) (
                                ok_then _ (number_field "token_budget" cfg.token_budget cfg refl) (
                                  ok_then _ (text_field "soul_file" cfg.soul_file cfg refl) (
                                    ok_then _
                                      (text_field "thinking_level" cfg.thinking_level cfg refl)
                                      (ok_then _
                                        (field-node (read_candidates V) "models" cfg
                                          ∙ read_opt-same (read_candidates V) (candidate_array V)
                                              read_candidates-array cfg.models)
                                        refl)))))))))))))))))

  role_node-new :
      {E : Type 0} (cfg : RoleConfig F)
      → role_node V {E = E} (Atom.node (set_props V (props V cfg) (V.new "role")))
        ≡ ok (set_props V (props V cfg) (V.new "role"))
  unfolding role_node
  role_node-new cfg =
      rw (name-set_props laws (props V cfg) (V.new "role") ∙ laws.name-new "role") refl

  -- A configuration that is written and read back is the same, but for its three numbers, of which the
  -- lower 32 bits remain.
  pub parse_at_role-serialize_at_role :
      {E : Type 0} (cfg : RoleConfig F)
      → parse_at_role V {E = E} (serialize_at_role V cfg) ≡ ok (as_stored cfg)
  unfolding parse_at_role serialize_at_role
  parse_at_role-serialize_at_role cfg =
      rw (laws.parse-to_at_source _, role_node-new cfg, deserialize-props cfg)
        (ap ok (to_config-decl_of cfg))
