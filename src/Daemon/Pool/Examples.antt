-- ===== src/Daemon/Pool/Examples.antt =====
-- The theorem about the permits with counters for semaphores.
use mathlib.Core.Option.{some-injective}
use auto_ai.Common.{
  sym, ap, suc, zero, [], ◌∷◌, none, some, true, refl, ◌≡◌, ◌≤◌, ℕ, string_eq, Option, ap, false,
}
use auto_ai.Common.HashMap
use auto_ai.Config.Provider.{ProviderConfig, DaemonConfig}
use auto_ai.Daemon.Pool.{Semaphore, ConcurrencyManager, from_config, limit, in_use, acquire}
use auto_ai.Daemon.Pool.Balanced.{Steps, Step, held_by}
use auto_ai.Daemon.Pool.Limits.{Steps-limit}

abbrev take_one : ℕ → Option ℕ
take_one zero = none
take_one (suc n) = some n

taken : (n m : ℕ) → take_one n ≡ some m → suc m ≡ n
taken zero m h = cc
taken (suc n) m h = ap suc (some-injective _ _ (sym h))

empty : (n : ℕ) → take_one n ≡ none → n ≡ 0
empty zero h = refl
empty (suc n) h = cc

abbrev counter : Semaphore
counter = record {
  Sem = ℕ;
  new = λ n. n;
  available_permits = λ n. n;
  try_acquire = take_one;
  release = suc;
  available-new = λ n. refl;
  available-try_acquire = taken;
  try_acquire-none = empty;
  available-release = λ n. refl;
}

abbrev provider : ProviderConfig
provider = record {
  kind = "openai";
  base_url = "";
  api_key = some "k";
  key_env = none;
  models = [];
  max_concurrency = some 2;
  auth_required = true;
  accepts_thinking_param = false;
}

abbrev one_provider : DaemonConfig
one_provider = record {
  listen_addr = "";
  idle_timeout_min = 0;
  log_level = "";
  providers = ("test", provider) ∷ [];
  default_provider = "test";
  default_model = "";
  tier_routing = record { routes = [] };
}

abbrev one_taken : ConcurrencyManager counter
one_taken = record { pools = ("test", 1) ∷ []; limits = ("test", 2) ∷ [] }

one_step : Steps counter (from_config counter one_provider, []) (one_taken, "test" ∷ [])
unfolding from_config acquire HashMap.get HashMap.insert
one_step = Steps.then (Step.acquired "test" refl) Steps.done

Steps-limit_example :
    (held_by "test" ("test" ∷ []) ≤ limit counter "test" one_taken)
    × ((n : ℕ) → in_use counter "test" one_taken ≡ some n → n ≡ held_by "test" ("test" ∷ []))
    × (acquire counter "test" one_taken ≡ none
        → held_by "test" ("test" ∷ []) ≡ limit counter "test" one_taken)
Steps-limit_example = Steps-limit counter one_provider one_taken ("test" ∷ []) "test" one_step
