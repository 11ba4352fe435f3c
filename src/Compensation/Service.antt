-- ===== src/Compensation/Service.antt =====
-- `CompensationActionService` (crates/compensation-service/src/compensation_action_service.rs). A
-- call is one step: no other call acts between its reads and writes.
pub mod Writes
pub mod Failing
pub mod Moves
pub mod Steps
pub mod Locality
pub mod Lifecycle
mod Types
mod Defs
unfoldable pub use Defs.*
