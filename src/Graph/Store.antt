-- ===== src/Graph/Store.antt =====
-- The in-memory graph repository (crates/graph-service/src/in_memory.rs). One lock guards the state, so
-- a call is one step. Of an index, a `HashMap` of lists, only the list under a key is ever read, where
-- a missing key gives the empty list: it is the function from keys to lists.
pub mod Integrity
pub mod Edges
pub mod History
pub mod Keys
pub mod Isolation
mod Defs
unfoldable pub use Defs.*
