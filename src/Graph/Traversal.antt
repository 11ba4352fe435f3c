-- ===== src/Graph/Traversal.antt =====
-- Reachability by breadth-first search (crates/graph-service/src/traversal.rs), over the in-memory store.
pub mod Start
pub mod Soundness
pub mod Fuel
pub mod Completeness
mod Defs
unfoldable pub use Defs.*
