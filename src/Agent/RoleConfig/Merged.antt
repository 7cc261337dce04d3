-- ===== src/Agent/RoleConfig/Merged.antt =====
-- Configurations merged over one another, in a chain.
use auto_ai.Agent.RoleConfig.{RoleConfig}
