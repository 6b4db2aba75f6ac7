-- ===== src/Db.antt =====
-- The database as state, and a request as an action on it.
-- A table is the list of its rows with the next number of its `autoincrement()`. A query's `where`
-- is a test on rows and its `data` a change of one row; both are written in the handlers, from the
-- source. No handler opens a transaction, so what was written before an error stays written.
mod Machine
mod Query
pub mod Triple
pub mod Inversion
pub use Machine.*
unfoldable pub use Query.*
