-- ===== src/Config.antt =====
-- crates/ai-config: the types on the wire and the model tiers.
pub mod Wire
pub mod Tier
pub mod Provider
pub mod Validate
