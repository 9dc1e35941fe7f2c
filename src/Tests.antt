-- ===== src/Tests.antt =====
-- Small states of the program, and the theorems at them.
pub mod Fixtures
pub mod Desk
pub mod Parts
pub mod Pairing
pub mod People
pub mod Joins
pub mod Rosters
pub mod Callers
pub mod Settings
