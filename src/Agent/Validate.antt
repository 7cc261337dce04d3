-- ===== src/Agent/Validate.antt =====
-- validate.rs of the agent: whether the model of a role is configured. Reading the client's
-- configuration gives its result as a parameter.
use auto_ai.Common.{String, List}
use auto_ai.Common.Results.{Result, ◌>>=◌, map_err}
use auto_ai.Config.Validate.{ClientConfig, validate_model_exists}
use auto_ai.Agent.Role.{Role}
use auto_ai.Agent.Run.{AgentError}

unfoldable pub validate_role_model :
    {F E : Type 0}
    → (List String → String)
    → Result (AgentError E) ClientConfig
    → Role F
    → Result (AgentError E) (Unit {0})
unfolding validate_model_exists
validate_role_model debug loaded role = do
  cfg ← loaded
  map_err AgentError.config (validate_model_exists debug cfg role.model)
