-- ===== src/Shmem/Results.antt =====
-- What is proved of the tests under SHMEM.
pub mod Conflict
pub mod Sync
pub mod Misc
pub mod Labels
pub mod Usage
pub mod Hybrid
