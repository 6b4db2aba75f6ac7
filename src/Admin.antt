-- ===== src/Admin.antt =====
-- src/admin: what the event service reports from the chain.
mod Service
mod Controller
pub mod Deposits
pub mod Transfers
unfoldable pub use Service.*
unfoldable pub use Controller.*
