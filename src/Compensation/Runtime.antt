-- ===== src/Compensation/Runtime.antt =====
-- `OrchestrationRuntime` (crates/compensation-service/src/orchestration_runtime.rs).
pub mod Counts
pub mod Passes
pub mod Effects
pub mod Outcome
pub mod Failures
mod Defs
unfoldable pub use Defs.*
