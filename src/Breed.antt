-- ===== src/Breed.antt =====
-- src/breed: the breeding sessions.
mod Service
mod Controller
mod Views
pub mod Evaluation
pub mod Target
pub mod Creation
pub mod Charges
pub mod Time
mod Included
pub mod Visibility
pub mod Progress
pub mod Advance
pub mod Stages
pub mod Checks
pub mod Start
pub mod Rewards
pub mod Finish
pub mod Stuck
pub mod Levels
mod Climbs
pub mod Lifecycle
unfoldable pub use Service.*
unfoldable pub use Controller.*
unfoldable pub use Views.*
