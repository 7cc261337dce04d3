-- ===== src/Daemon/TierRouter/Chains.antt =====
-- The chain of every tier in a router that is derived from the providers.
use auto_ai.Common.{[], ◌∷◌, true, string_eq, ◌&&◌, ◌||◌, not, String, List, Bool, ◌==◌}
use auto_ai.Config.Tier.{tier_eq}
use auto_ai.Config.Provider.{ProviderConfig}
use auto_ai.Common.HashMap
use auto_ai.Common.HashMap.{HashMap}
use auto_ai.Daemon.TierRouter.{TierCandidate, has_provider}

-- No provider that is left has a candidate, save the default one.
abbrev fresh : String → List TierCandidate → HashMap String ProviderConfig → Bool
fresh default_provider cs [] = true
fresh default_provider cs ((name, _) ∷ providers) =
    (name == default_provider || not (has_provider name cs)) && fresh default_provider cs providers
