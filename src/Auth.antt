-- ===== src/Auth.antt =====
-- Login and the checks on every request: src/user, src/middlewares and src/guards.
mod Text
pub mod Upsert
mod Service
pub mod Messages
pub mod Logins
pub mod Tokens
pub mod Guard
unfoldable pub use Service.*
