-- ===== src/Graph.antt =====
-- The graph of causal lineage (crates/graph-service).
pub mod Types
pub mod Store
pub mod Traversal
pub mod Mappings
pub mod Classification
pub mod Reevaluation
pub mod Examples
