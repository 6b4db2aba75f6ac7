-- ===== src/Stats.antt =====
-- src/stats: the hourly snapshot of what players have done, and the queries on it.
mod Snapshot
mod Queries
mod Metrics
mod History
pub mod Upserts
pub mod Columns
pub mod Statements
pub mod Presence
pub mod Reference
pub mod Ranking
pub mod Cursors
pub mod Breeders
pub mod Shop
pub mod Deposits
unfoldable pub use Snapshot.*
unfoldable pub use Queries.*
unfoldable pub use Metrics.*
unfoldable pub use History.*
