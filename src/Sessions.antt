-- ===== src/Sessions.antt =====
-- The sessions as a whole: which invariant the requests of all components keep on the pairs and
-- the slots.
mod Good
pub mod Frames
pub mod Changes
pub mod Rules
pub mod Ends
pub mod Cancels
pub mod Begins
pub mod Invalidations
pub mod Lands
pub mod Logins
pub mod Points
pub mod Requests
pub mod Moves
pub mod Numbering
mod Still
mod Lasting
mod Endings
mod Births
mod Others
pub mod LifeCycle
pub use Good.*
