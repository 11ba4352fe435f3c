-- ===== src/Graph/Classification.antt =====
-- The classification of impact (crates/graph-service/src/classification.rs).
pub mod Defs
pub mod Fuel
pub mod Affects
pub mod Soundness
pub mod Near
pub mod Levels
pub mod Completeness
pub mod Examples
