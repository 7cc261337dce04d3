-- ===== src/Orchestration.antt =====
-- The orchestration layer of the agent crate (crates/auto-ai-agent/rust-ref/src/orchestration).
pub mod Flow
pub mod Budget
pub mod Handoff
pub mod Pipeline
pub mod Driver
mod Examples
