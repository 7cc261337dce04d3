-- ===== src/Daemon/Server/Route.antt =====
-- server.rs: the candidates of a request, and the model that serves it.
use Prim.Native.Char.{code}
use auto_ai.Common.{
  ℕ, String, List, [], ◌∷◌, Option, none, some, Bool, ◌==◌, string_eq, nat_beq, if◌then◌else◌, map,
  find, any, ◌>>=◌,
}
use auto_ai.Common.Chars.{codes, trim, to_ascii_lowercase}
use auto_ai.Common.HashMap
use auto_ai.Common.HashMap.{HashMap}
use auto_ai.Config.Provider.{ProviderConfig, DaemonConfig}
use auto_ai.Config.Tier.{ModelTier, ModelDefinition, parse_lower, resolve_model_id}
use auto_ai.Config.Wire.{CompletionRequest, ModelCandidate, ModelMeta}
use auto_ai.Daemon.Server.{Server, Refusal, unknown_tier, no_candidates, unknown_model}
use auto_ai.Daemon.TierRouter.{TierRouter, TierCandidate, candidates_preferred}

-- A candidate: the provider, and the id of the model.
abbrev pub Candidate : Type 0
Candidate = String × String

-- What the routing finds: a refusal, or the candidates in their order.
pub data Routed : Type 0 where
  rejected : Refusal → Routed
  routed : List Candidate → Routed

-- `strip_prefix`
unfoldable pub strip_prefix : String → String → Option String
strip_prefix String.[] s = some s
strip_prefix (String.◌∷◌ c p) String.[] = none
strip_prefix (String.◌∷◌ c p) (String.◌∷◌ d s) =
    if nat_beq (code c) (code d) then strip_prefix p s else none

-- The name of a tier in a request, and `ModelTier::parse_name` of it.
abbrev pub tier_name : String → List ℕ
tier_name rest = to_ascii_lowercase (trim (codes rest))

abbrev pub tier_of : List ℕ → Option ModelTier
tier_of name = parse_lower (to_ascii_lowercase (trim name))

abbrev pub default_model_for : DaemonConfig → ModelTier → Option String
default_model_for config tier = do
  provider ← HashMap.get config.default_provider config.providers
  resolve_model_id tier provider.models

unfoldable pub resolve_tier_model : String → DaemonConfig → Option String
resolve_tier_model token config = do
  rest ← strip_prefix "tier:" token
  tier ← tier_of (tier_name rest)
  default_model_for config tier

abbrev pub meta_of : String → ModelDefinition → Option ModelMeta
meta_of model_id m = do
  window ← m.context_window
  some (record { id = model_id; context_window = window; max_output_tokens = m.max_output_tokens })

unfoldable pub model_meta_for : DaemonConfig → String → String → Option ModelMeta
model_meta_for config provider model_id = do
  pc ← HashMap.get provider config.providers
  m ← find (λ m. m.id == model_id) pc.models
  meta_of model_id m

abbrev pub of_chain : ModelCandidate → Candidate
of_chain c = (c.provider, c.model)

abbrev pub of_tier : TierCandidate → Candidate
of_tier c = (c.provider, c.model)

abbrev pub owns : String → ProviderConfig → Bool
owns model pc = any (λ m. m.id == model) pc.models

-- The first provider with a model of this id.
unfoldable pub owner : String → HashMap String ProviderConfig → Option String
owner model [] = none
owner model ((name, pc) ∷ providers) = if owns model pc then some name else owner model providers

abbrev pub route_model : Option String → String → Routed
route_model none model = rejected (unknown_model model)
route_model (some name) model = routed ((name, model) ∷ [])

abbrev pub route_default : Option String → String → DaemonConfig → Routed
route_default none model config = rejected (no_candidates model)
route_default (some resolved) model config = routed ((config.default_provider, resolved) ∷ [])

-- A tier without candidates is resolved by the default provider.
abbrev pub route_chain : List TierCandidate → String → DaemonConfig → Routed
route_chain [] model config = route_default (resolve_tier_model model config) model config
route_chain (c ∷ cs) model config = routed (map of_tier (c ∷ cs))

abbrev pub route_tier :
    Option ModelTier → List ℕ → String → Option String → TierRouter → DaemonConfig → Routed
route_tier none name model preferred router config = rejected (unknown_tier name)
route_tier (some tier) name model preferred router config =
    route_chain (candidates_preferred tier preferred router) model config

abbrev pub route_token : Option String → String → Option String → TierRouter → DaemonConfig → Routed
route_token none model preferred router config = route_model (owner model config.providers) model
route_token (some rest) model preferred router config =
    route_tier (tier_of (tier_name rest)) (tier_name rest) model preferred router config

abbrev pub route_request :
    List ModelCandidate → String → Option String → TierRouter → DaemonConfig → Routed
route_request [] model preferred router config =
    route_token (strip_prefix "tier:" model) model preferred router config
route_request (c ∷ cs) model preferred router config = routed (map of_chain (c ∷ cs))

-- An explicit chain as it is; a tier by the router; a model by the provider that owns it.
unfoldable pub route : (sv : Server) → CompletionRequest sv.J sv.F → Routed
route sv req =
    route_request req.model_chain req.model req.preferred_provider sv.tier_router sv.config
