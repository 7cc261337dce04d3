-- ===== src/Config/Provider.antt =====
-- provider.rs and loader.rs: the configuration of the daemon.
use auto_ai.Common.{ℕ, String, List, Bool, Option}
use auto_ai.Common.HashMap.{HashMap}
use auto_ai.Config.Tier.{ModelDefinition}

pub record ProviderConfig : Type 0 where
  pub kind : String
  pub base_url : String
  pub api_key : Option String
  pub key_env : Option String
  pub models : List ModelDefinition
  pub max_concurrency : Option ℕ
  pub auth_required : Bool
  pub accepts_thinking_param : Bool

pub record TierRouteCandidate : Type 0 where
  pub provider : String
  pub model : String

pub record TierRouting : Type 0 where
  pub routes : HashMap String (List TierRouteCandidate)

pub record DaemonConfig : Type 0 where
  pub listen_addr : String
  pub idle_timeout_min : ℕ
  pub log_level : String
  pub providers : HashMap String ProviderConfig
  pub default_provider : String
  pub default_model : String
  pub tier_routing : TierRouting
