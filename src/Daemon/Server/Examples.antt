-- ===== src/Daemon/Server/Examples.antt =====
-- The theorems about a request, with counters for semaphores: one provider is rate limited, and the
-- next one answers.
use auto_ai.Common.{
  ℕ, zero, suc, [], ◌∷◌, none, some, true, false, refl, string_eq, inl, inr, arith, ◌≡◌, String,
  Option,
}
use auto_ai.Common.HashMap
use auto_ai.Config.Tier.{parse_lower}
use auto_ai.Common.Chars.{trim, to_ascii_lowercase}
use auto_ai.Daemon.TierRouter.{candidates_preferred}
use auto_ai.Daemon.Server.Attempts.{try_all, attempt, with_permit, settle, end_stream}
use auto_ai.Daemon.Errors.{LlmError, is_quota_exhausted, is_retryable}
use auto_ai.Daemon.Server.Route.{model_meta_for}
use auto_ai.Daemon.Pool.{Semaphore, acquire, drop_permit}
use auto_ai.Daemon.Pool.Balanced.{Steps}
use auto_ai.Daemon.Server.{Server, AiProvider, AppState, ok}
use auto_ai.Daemon.Server.Attempts.{chat_completions}
use auto_ai.Daemon.Tracker.{new_usage}
use auto_ai.Config.Provider.{DaemonConfig, ProviderConfig}
use auto_ai.Daemon.Server.Route.{strip_prefix, route}
use auto_ai.Config.Wire.{CompletionResponse, CompletionRequest, single, Usage}
use auto_ai.Daemon.Server.Guards.{held_after, chat_completions-Steps, end_stream-Steps}
use auto_ai.Config.Tier.{new_model, ModelTier}

abbrev counted : ℕ → Option ℕ
counted zero = none
counted (suc n) = some n

counted_some : (s s' : ℕ) → counted s ≡ some s' → suc s' ≡ s
counted_some zero s' h = cc
counted_some (suc n) s' h = ground arith

counted_none : (s : ℕ) → counted s ≡ none → s ≡ 0
counted_none zero h = refl
counted_none (suc n) h = cc

abbrev counters : Semaphore
counters = record {
  Sem = ℕ;
  new = λ n. n;
  available_permits = λ s. s;
  try_acquire = counted;
  release = suc;
  available-new = λ n. refl;
  available-try_acquire = counted_some;
  try_acquire-none = counted_none;
  available-release = λ s. refl;
}

abbrev provider_config : String → ProviderConfig
provider_config model = record {
  kind = "openai";
  base_url = "";
  api_key = none;
  key_env = none;
  models = new_model model ModelTier.mid ∷ [];
  max_concurrency = some 1;
  auth_required = false;
  accepts_thinking_param = false;
}

abbrev config : DaemonConfig
config = record {
  listen_addr = "";
  idle_timeout_min = 0;
  log_level = "";
  providers = ("a", provider_config "m") ∷ ("b", provider_config "n") ∷ [];
  default_provider = "a";
  default_model = "m";
  tier_routing = record { routes = [] };
}

abbrev answered_usage : Usage
answered_usage = record {
  input_tokens = 3;
  output_tokens = 2;
  cache_read_tokens = 0;
  cache_write_tokens = 0;
}

abbrev answer : CompletionResponse String
answer = record {
  content = "hello";
  tool_calls = [];
  stop_reason = none;
  usage = some answered_usage;
  model = "n";
  error = none;
  model_meta = none;
}

abbrev limited : AiProvider String ℕ ℕ
limited = record { complete = λ w r. (inr LlmError.rate_limited, w) }

abbrev willing : AiProvider String ℕ ℕ
willing = record { complete = λ w r. (inl answer, w) }

abbrev server : Server
server = record {
  tokio = counters;
  J = String;
  F = ℕ;
  W = ℕ;
  config = config;
  registry = ("a", limited) ∷ ("b", willing) ∷ [];
  tier_router = record {
    routing =
        (
          ModelTier.mid,
          record { provider = "a"; model = "m" } ∷ record { provider = "b"; model = "n" } ∷ [],
        )
        ∷ [];
  };
  to_lowercase = λ s. s;
}

abbrev state : AppState server
state = record {
  pool = record { pools = ("a", 1) ∷ ("b", 1) ∷ []; limits = ("a", 1) ∷ ("b", 1) ∷ [] };
  tracker = new_usage;
  held = [];
  world = 0;
}

abbrev asking : String → CompletionRequest String ℕ
asking model = single model "hi"

-- The rate limited provider is passed over.
falls_back : (chat_completions server "app" (asking "tier:mid") state).0 ≡ ok answer
unfolding chat_completions route strip_prefix parse_lower to_ascii_lowercase trim
    candidates_preferred HashMap.get try_all attempt acquire with_permit settle is_quota_exhausted
    is_retryable drop_permit HashMap.insert model_meta_for
falls_back = refl

chat_completions-Steps_example :
    let (r, s') = chat_completions server "app" (asking "tier:mid") state in
    Steps counters (state.pool, []) (s'.pool, s'.held) × (s'.held ≡ held_after server r [])
chat_completions-Steps_example = chat_completions-Steps server "app" (asking "tier:mid") state

end_stream-Steps_example :
    let (r, s') = chat_completions server "app" (record (asking "n") { stream = true }) state in
    let s'' = end_stream server "app" (some answered_usage) r s' in
    Steps counters (state.pool, []) (s''.pool, s''.held) × (s''.held ≡ [])
end_stream-Steps_example =
    end_stream-Steps server "app" (record (asking "n") { stream = true }) (some answered_usage)
      state
