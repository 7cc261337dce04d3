-- ===== src/Agent.antt =====
-- crates/auto-ai-agent: the agent, the memory of its conversation and its compaction.
mod Examples
pub mod Memory
pub mod Compaction
pub mod Repair
pub mod Tools
pub mod Role
pub mod RoleConfig
pub mod Skill
pub mod Run
pub mod Validate
