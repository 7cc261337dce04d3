-- ===== src/Daemon.antt =====
-- The daemon crate (crates/auto-ai-daemon/src).
pub mod Utf8
pub mod Sse
pub mod TierRouter
pub mod Tracker
pub mod Pool
pub mod Errors
pub mod Server
pub mod Anthropic
pub mod Registry
