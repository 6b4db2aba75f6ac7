-- ===== src/User.antt =====
-- src/user: breeding points, and the conversion of points.
mod Service
pub mod Points
unfoldable pub use Service.*
