-- ===== src/Races.antt =====
-- Requests that run at the same time. A handler of src/ gives way to others at each `await` of the
-- database client, so that the calls of several requests interleave.
mod Tasks
mod Reads
pub mod Alone
pub mod Once
pub mod Solvency
pub mod Schedules
pub mod Lost
pub mod Twice
mod Started
pub mod Pairs
unfoldable pub use Tasks.*
