-- ===== src/Intent/Approval.antt =====
-- The requests for approval (crates/intent-service/src/approval_request_repo.rs).
pub mod Defs
pub mod Writes
pub mod History
pub mod Index
pub mod Listing
