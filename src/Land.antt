-- ===== src/Land.antt =====
-- src/land: the slots of the lands, and the purchases that the backend signs for.
mod Service
mod Controller
pub mod Slots
pub mod Charges
unfoldable pub use Service.*
unfoldable pub use Controller.*
