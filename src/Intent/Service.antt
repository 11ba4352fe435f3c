-- ===== src/Intent/Service.antt =====
-- The service of intents (crates/intent-service/src/intent_service.rs) over the in-memory
-- repositories.
pub mod Defs
pub mod Versions
pub mod Cancellation
pub mod Reading
pub mod Comparison
