-- ===== src/Engine/Diff.antt =====
-- The semantic diff of intent versions (crates/rebase-engine/src/diff.rs).
pub mod Types
pub mod Order
pub mod Keyed
pub mod Matching
pub mod Conservation
pub mod Scope
pub mod ScopeConservation
pub mod Defs
pub mod Sections
pub mod Version
pub mod Unchanged
