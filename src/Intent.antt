-- ===== src/Intent.antt =====
-- The intents, their versions and the requests for approval (crates/intent-service).
pub mod Types
pub mod Repo
pub mod Approval
pub mod Service
mod Examples
