-- ===== src/Engine/Risk.antt =====
-- The risk of a diff (crates/rebase-engine/src/risk.rs and rules.rs).
pub mod Types
pub mod Rules
pub mod Sections
pub mod Analysis
pub mod Severity
pub mod Counts
pub mod Accounting
