-- ===== src/Bud.antt =====
-- src/bud: ownership and genders of buds, Gen1 mints, and renaming.
mod Service
mod Controller
pub mod Chunks
pub mod Pairs
pub mod Renames
unfoldable pub use Service.*
unfoldable pub use Controller.*
