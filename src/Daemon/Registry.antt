-- ===== src/Daemon/Registry.antt =====
-- provider/mod.rs and ai-config's provider.rs: the registry of providers that a configuration builds.
-- The environment is a parameter.
mod Examples
pub mod Complete
use auto_ai.Common.{
  [], ◌∷◌, none, some, true, false, string_eq, String, List, Option, Bool, if◌then◌else◌, ◌==◌,
  ◌||◌, map,
}
use auto_ai.Common.HashMap
use auto_ai.Common.HashMap.{HashMap}
use auto_ai.Common.Results.{Result, err, ok, ◌>>=◌}
use auto_ai.Config.Tier.{ModelDefinition}
use auto_ai.Config.Provider.{ProviderConfig}
use auto_ai.Daemon.Errors.{LlmError}
use auto_ai.Agent.Compaction.Files.{contains}

-- The value of a variable, where it is set.
abbrev pub Env : Type 0
Env = String → Option String

abbrev placeholder : Bool → Option String
placeholder auth_required = if auth_required then none else some "no-key-needed"

abbrev or_placeholder : Bool → Option String → Option String
or_placeholder auth_required none = placeholder auth_required
or_placeholder auth_required (some key) = some key

abbrev env_key : Env → Bool → Option String → Option String
env_key env auth_required none = placeholder auth_required
env_key env auth_required (some name) = or_placeholder auth_required (env name)

abbrev direct_key : Env → ProviderConfig → Option String → Option String
direct_key env pc none = env_key env pc.auth_required pc.key_env
direct_key env pc (some key) = if key == "" then placeholder pc.auth_required else some key

unfoldable pub resolve_key : Env → ProviderConfig → Option String
resolve_key env pc = direct_key env pc pc.api_key

abbrev is_local : ProviderConfig → Bool
is_local pc = contains pc.base_url "localhost" || contains pc.base_url "127.0.0.1"

-- Without a key, a provider on this machine needs none.
abbrev local_key : ProviderConfig → Option String → Option String
local_key pc (some key) = some key
local_key pc none = if is_local pc then some "no-key-needed" else none

unfoldable pub usable_key : Env → ProviderConfig → Option String
unfolding resolve_key
usable_key env pc = local_key pc (resolve_key env pc)

pub data Provider : Type 0 where
  anthropic :
      (name base_url key : String)
      → (models : List String) → (accepts_thinking_param : Bool) → Provider
  ollama : (name base_url : String) → (models : List String) → Provider
  openai : (name base_url key : String) → (models : List String) → Provider

abbrev model_ids : List ModelDefinition → List String
model_ids [] = []
model_ids (m ∷ ms) = m.id ∷ model_ids ms

unfoldable pub provider_of : String → ProviderConfig → String → Provider
provider_of name pc key =
    if pc.kind == "anthropic"
    then Provider.anthropic name pc.base_url key (model_ids pc.models) pc.accepts_thinking_param
    else if pc.kind == "ollama"
    then Provider.ollama name pc.base_url (model_ids pc.models)
    else Provider.openai name pc.base_url key (model_ids pc.models)

pub record ProviderRegistry : Type 0 where
  pub providers : HashMap String Provider
  pub default_name : String

abbrev pub keyed : String → Option String → Result LlmError String
keyed name none = err (LlmError.no_api_key name)
keyed name (some key) = ok key

-- The loop over the configured providers.
unfoldable pub register_all :
    Env
    → HashMap String ProviderConfig
    → HashMap String Provider
    → Result LlmError (HashMap String Provider)
unfolding provider_of
register_all env [] registry = ok registry
register_all env ((name, pc) ∷ providers) registry = do
  key ← keyed name (usable_key env pc)
  register_all env providers (HashMap.insert name (provider_of name pc key) registry)

abbrev pub not_empty : String → HashMap String Provider → Result LlmError ProviderRegistry
not_empty default_name [] = err LlmError.no_provider
not_empty default_name (p ∷ ps) = ok (record { providers = p ∷ ps; default_name = default_name })

unfoldable pub build :
    Env → HashMap String ProviderConfig → String → Result LlmError ProviderRegistry
unfolding register_all
build env providers default_name = do
  registry ← register_all env providers []
  not_empty default_name registry

abbrev pub or_no_provider : Option Provider → Result LlmError Provider
or_no_provider none = err LlmError.no_provider
or_no_provider (some p) = ok p

unfoldable pub default_provider : ProviderRegistry → Result LlmError Provider
default_provider r = or_no_provider (HashMap.get r.default_name r.providers)
