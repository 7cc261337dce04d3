-- ===== src/Config/Validate.antt =====
-- validate.rs of ai-config and of the agent: whether a model is configured. The text of a list in an
-- error, `{:?}`, is a parameter, and so is the reading of the client's configuration.
use auto_ai.Common.{
  [], ◌∷◌, ◌++◌, true, false, string_eq, String, List, Bool, if◌then◌else◌, ◌==◌, any,
}
use auto_ai.Common.Format.{format}
use auto_ai.Common.HashMap.{HashMap}
use auto_ai.Common.Results.{Result, err, ok}
use auto_ai.Config.Tier.{ModelDefinition}
use auto_ai.Config.Provider.{ProviderConfig}

pub record ClientConfig : Type 0 where
  pub providers : HashMap String ProviderConfig
  pub default_provider : String
  pub default_model : String

abbrev pub has_model : String → ProviderConfig → Bool
has_model model p = any (λ m. m.id == model) p.models

abbrev ids : List ModelDefinition → List String
ids [] = []
ids (m ∷ ms) = m.id ∷ ids ms

abbrev pub available : HashMap String ProviderConfig → List String
available [] = []
available ((_, p) ∷ providers) = ids p.models ++ available providers

-- The loop over the providers.
abbrev pub is_configured : String → HashMap String ProviderConfig → Bool
is_configured model [] = false
is_configured model ((_, p) ∷ providers) =
    let later = is_configured model providers in if has_model model p then true else later

unfoldable pub validate_model_exists :
    (List String → String) → ClientConfig → String → Result String (Unit {0})
validate_model_exists debug config model =
    if is_configured model config.providers
    then ok tt
    else err (
        format (
          "model '"
          ∷ model
          ∷ "' not found in any configured provider; available: "
          ∷ debug (available config.providers)
          ∷ []))
