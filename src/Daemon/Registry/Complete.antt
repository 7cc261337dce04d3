-- ===== src/Daemon/Registry/Complete.antt =====
-- The registry that is built, against its configuration.
use auto_ai.Common.{[], ◌∷◌, none, some, true, false, string_eq, String, Option, Bool, ◌&&◌}
use auto_ai.Common.HashMap
use auto_ai.Common.HashMap.{HashMap}
use auto_ai.Config.Provider.{ProviderConfig}
use auto_ai.Daemon.Registry.{Env, Provider, usable_key, provider_of}

abbrev absent : Option ProviderConfig → Bool
absent none = true
absent (some _) = false

-- No name stands twice.
abbrev pub distinct : HashMap String ProviderConfig → Bool
distinct [] = true
distinct ((name, _) ∷ providers) = absent (HashMap.get name providers) && distinct providers

abbrev with_key : String → ProviderConfig → Option String → Option Provider
with_key name pc none = none
with_key name pc (some key) = some (provider_of name pc key)

-- The provider of a name in a configuration, or else `older`.
abbrev pub configured : Env → String → Option ProviderConfig → Option Provider → Option Provider
configured env name none older = older
configured env name (some pc) older = with_key name pc (usable_key env pc)
