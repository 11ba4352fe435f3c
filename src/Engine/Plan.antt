-- ===== src/Engine/Plan.antt =====
-- The plan of a rebase (crates/rebase-engine/src/planner.rs).
pub mod Types
pub mod Checkpoints
pub mod Defs
pub mod Build
pub mod Escalation
pub mod Choice
pub mod Classes
pub mod Sections
pub mod Trivial
