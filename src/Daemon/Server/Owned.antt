-- ===== src/Daemon/Server/Owned.antt =====
-- The routing of a request that names a model.
use auto_ai.Common.{true, false, none, some, string_eq, [], ◌∷◌, String, Option, ◌≡◌, ◌⊎◌}
use auto_ai.Daemon.Server.Route.{rejected, routed, owns, Routed}
use auto_ai.Common.HashMap.{HashMap}
use auto_ai.Config.Provider.{ProviderConfig}
use auto_ai.Daemon.Server.{Server, unknown_model}

-- Some provider of the configuration has the model, and its name is this one.
abbrev pub OwnedBy : String → String → HashMap String ProviderConfig → Type 0
OwnedBy model name [] = ⊥
OwnedBy model name ((n, pc) ∷ providers) =
    ((n ≡ name) × (owns model pc ≡ true)) ⊎ OwnedBy model name providers

-- No provider has the model.
abbrev pub Unowned : String → HashMap String ProviderConfig → Type 0
Unowned model [] = Unit
Unowned model ((n, pc) ∷ providers) = (owns model pc ≡ false) × Unowned model providers

abbrev Owner : String → HashMap String ProviderConfig → Option String → Type 0
Owner model providers none = Unowned model providers
Owner model providers (some name) = OwnedBy model name providers

-- A model is routed to the provider of the configuration that has it, and to no other; it is refused
-- where no provider has it.
abbrev pub RoutesModel : String → HashMap String ProviderConfig → Routed → Type 0
RoutesModel model providers (rejected r) = (r ≡ unknown_model model) × Unowned model providers
RoutesModel model providers (routed cs) =
    (name : String) × (cs ≡ (name, model) ∷ []) × OwnedBy model name providers
