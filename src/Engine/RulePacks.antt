-- ===== src/Engine/RulePacks.antt =====
-- The rule packs of a tenant (crates/rebase-engine/src/rule_pack.rs and rule_pack_registry.rs).
pub mod Defs
pub mod Calls
pub mod History
mod Examples
