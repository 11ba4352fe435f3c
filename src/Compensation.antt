-- ===== src/Compensation.antt =====
-- The compensation service (crates/compensation-service).
pub mod SideEffect
pub mod Action
pub mod Repo
pub mod Executor
pub mod Planner
pub mod Service
pub mod Gate
pub mod Proposal
pub mod Run
pub mod Runtime
pub mod Mappings
mod MappingsExamples
mod Examples
