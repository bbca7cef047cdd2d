-- ===== src/Gaspi/Results.antt =====
-- What is proved of the tests under GASPI.
pub mod Conflict
pub mod Sync
pub mod Misc
pub mod Usage
pub mod Labels
pub mod Hybrid
