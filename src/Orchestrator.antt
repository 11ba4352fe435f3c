-- ===== src/Orchestrator.antt =====
-- The orchestration of a rebase (crates/rebase-orchestrator).
pub mod Pipeline
pub mod Gate
pub mod Updater
pub mod Settling
pub mod Updates
mod Examples
