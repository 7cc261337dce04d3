-- ===== src/Daemon/Registry/Examples.antt =====
-- The theorem about a registry at a configuration of two providers, one of them local.
use auto_ai.Common.{
  [], ◌∷◌, none, some, true, false, refl, ◌≡◌, string_eq, String, if◌then◌else◌, ◌==◌,
}
use auto_ai.Common.HashMap
use auto_ai.Common.HashMap.{HashMap}
use auto_ai.Common.Results.{ok, err}
use auto_ai.Config.Provider.{ProviderConfig}
use auto_ai.Daemon.Errors.{LlmError}
use auto_ai.Daemon.Registry.{
  Env, Provider, ProviderRegistry, build, register_all, usable_key, resolve_key, default_provider,
}

abbrev env : Env
env name = if name == "ZHIPU_API_KEY" then some "secret" else none

abbrev zhipu : ProviderConfig
zhipu = record {
  kind = "openai";
  base_url = "https://open.bigmodel.cn";
  api_key = none;
  key_env = some "ZHIPU_API_KEY";
  models = [];
  max_concurrency = none;
  auth_required = true;
  accepts_thinking_param = false;
}

abbrev ollama : ProviderConfig
ollama = record zhipu { kind = "ollama"; base_url = "http://localhost:11434/v1"; key_env = none }

abbrev configuration : HashMap String ProviderConfig
configuration = ("zhipu", zhipu) ∷ ("ollama", ollama) ∷ []

abbrev registry : ProviderRegistry
registry = record {
  providers =
      ("zhipu", Provider.openai "zhipu" "https://open.bigmodel.cn" "secret" [])
      ∷ ("ollama", Provider.ollama "ollama" "http://localhost:11434/v1" [])
      ∷ [];
  default_name = "zhipu";
}

-- A provider elsewhere needs a key.
no_key :
    build env (("far", record zhipu { key_env = none }) ∷ []) "far"
    ≡ err (LlmError.no_api_key "far")
unfolding build register_all usable_key resolve_key
no_key = refl

the_default :
    default_provider registry ≡ ok (Provider.openai "zhipu" "https://open.bigmodel.cn" "secret" [])
unfolding default_provider HashMap.get
the_default = refl
