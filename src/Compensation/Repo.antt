-- ===== src/Compensation/Repo.antt =====
-- The in-memory action repository (crates/compensation-service/src/compensation_action_repo.rs).
-- The locks of one call are taken together and released at its end, so a call is one step. Of an
-- index, a `HashMap` of lists, only the list under a key is ever read, where a missing key gives the
-- empty list: it is the function from keys to lists. The clock is an argument.
pub mod Index
pub mod Query
pub mod Locking
pub mod History
mod Defs
unfoldable pub use Defs.*
