-- ===== src/Daemon/Server.antt =====
-- server.rs: how a request is routed, and the attempts over its candidates. A request runs as one
-- sequence of steps, from the states in which its awaits end; the providers are parameters, which
-- answer as their world tells. The text of a refusal is left out: a refusal carries what it shows.
pub mod Route
pub mod Attempts
pub mod Guards
pub mod Charged
pub mod Owned
mod Examples
use auto_ai.Common.{ℕ, String, List, [], ◌∷◌, Option, none, some, Bool, true, false, ◌⊎◌}
use auto_ai.Common.HashMap.{HashMap}
use auto_ai.Config.Provider.{DaemonConfig}
use auto_ai.Config.Wire.{CompletionRequest, CompletionResponse, ModelMeta}
use auto_ai.Daemon.Errors.{LlmError}
use auto_ai.Daemon.Pool.{Semaphore, ConcurrencyManager}
use auto_ai.Daemon.TierRouter.{TierRouter}
use auto_ai.Daemon.Tracker.{UsageTracker}

-- A provider: the call that is not streamed. `J` is JSON, `F` a double, `W` the world.
pub record AiProvider (J F W : Type 0) : Type 0 where
  pub complete : W → CompletionRequest J F → (CompletionResponse J ⊎ LlmError) × W

-- What the server is built from.
pub record Server : Type 1 where
  pub tokio : Semaphore
  pub J : Type 0
  pub F : Type 0
  pub W : Type 0
  pub config : DaemonConfig
  pub registry : HashMap String (AiProvider J F W)
  pub tier_router : TierRouter
  pub to_lowercase : String → String

-- What changes: the pool, the usage, the world, and the guards that are held, the newest first.
pub record AppState (sv : Server) : Type 0 where
  pub pool : ConcurrencyManager sv.tokio
  pub tracker : UsageTracker
  pub held : List String
  pub world : sv.W

pub data Refusal : Type 0 where
  unknown_tier : List ℕ → Refusal  -- 400, the name in lower case
  no_candidates : String → Refusal  -- 400
  unknown_model : String → Refusal  -- 400
  quota_exhausted : LlmError → Refusal  -- 402
  upstream_error : LlmError → Refusal  -- 502
  all_failed : Option String → Refusal  -- 502, the last error

abbrev pub status_code : Refusal → ℕ
status_code (unknown_tier _) = 400
status_code (no_candidates _) = 400
status_code (unknown_model _) = 400
status_code (quota_exhausted _) = 402
status_code (upstream_error _) = 502
status_code (all_failed _) = 502

pub data Response (J F : Type 0) : Type 0 where
  ok : CompletionResponse J → Response J F
  -- The stream of a provider, which holds its guard until it ends.
  stream : (provider : String) → CompletionRequest J F → Option ModelMeta → Response J F
  refused : Refusal → Response J F
