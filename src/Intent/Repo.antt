-- ===== src/Intent/Repo.antt =====
-- The in-memory repository of intents (crates/intent-service/src/in_memory_intent_repository.rs).
pub mod Defs
pub mod Chain
pub mod Cases
pub mod History
pub mod Reading
pub mod Head
