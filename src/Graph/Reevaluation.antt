-- ===== src/Graph/Reevaluation.antt =====
-- The re-evaluation of edges (crates/graph-service/src/edge_reevaluation.rs).
pub mod Defs
pub mod Exactness
pub mod Examples
