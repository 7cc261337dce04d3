-- ===== src/Daemon/TierRouter/Examples.antt =====
-- The theorems about the router at a configuration.
use mathlib.Core.List.{Perm}
use auto_ai.Common.{string_eq, [], ◌∷◌, none, some, true, false, ◌≡◌, List}
use auto_ai.Common.HashMap
use auto_ai.Config.Tier.{ModelTier, ModelDefinition, new_model}
use auto_ai.Config.Provider.{ProviderConfig, DaemonConfig}
use auto_ai.Daemon.TierRouter.{from_config, candidates, candidates_preferred, resolve, first}
use auto_ai.Daemon.TierRouter.Preferred.{candidates_preferred-Perm, resolve-candidates_preferred}

abbrev provider : List ModelDefinition → ProviderConfig
provider models = record {
  kind = "anthropic";
  base_url = "";
  api_key = none;
  key_env = none;
  models = models;
  max_concurrency = some 4;
  auth_required = true;
  accepts_thinking_param = false;
}

abbrev config : DaemonConfig
config = record {
  listen_addr = "127.0.0.1:17654";
  idle_timeout_min = 10;
  log_level = "info";
  providers =
      (
        "deepseek",
        provider (new_model "pro-1" ModelTier.pro ∷ new_model "pro-2" ModelTier.pro ∷ []),
      )
      ∷ ("zhipu", provider (new_model "max" ModelTier.max ∷ new_model "pro" ModelTier.pro ∷ []))
      ∷ [];
  default_provider = "zhipu";
  default_model = "";
  tier_routing = record { routes = [] };
}

candidates_preferred-Perm_example :
    Perm
      (candidates_preferred ModelTier.pro (some "deepseek") (from_config config))
      (candidates ModelTier.pro (from_config config))
candidates_preferred-Perm_example =
    candidates_preferred-Perm ModelTier.pro (some "deepseek") (from_config config)

resolve-candidates_preferred_example :
    resolve ModelTier.pro (some "deepseek") (from_config config)
    ≡ first (candidates_preferred ModelTier.pro (some "deepseek") (from_config config))
resolve-candidates_preferred_example =
    resolve-candidates_preferred ModelTier.pro (some "deepseek") (from_config config)
