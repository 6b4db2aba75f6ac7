-- ===== src/Tests.antt =====
-- The theorems at concrete inputs.
mod Fixtures
mod Breeding
mod Slots
mod Points
mod Tables
mod Stats
mod Auth
mod Progress
mod Lifecycle
mod Races
