-- ===== src/Compensation/Action.antt =====
-- Compensation actions (crates/compensation-service/src/compensation_action.rs): the record with its
-- constructors (`Types`), the retry policy (`Retry`) and the transition table (`Transition`).
mod Types
pub mod Retry
pub mod Transition
pub mod Policy
unfoldable pub use Types.*
