-- ===== src/Engine.antt =====
-- The rebase engine (crates/rebase-engine).
pub mod Types
pub mod Diff
pub mod Risk
pub mod Plan
pub mod Revalidation
pub mod RulePacks
pub mod Facade
pub mod Examples
