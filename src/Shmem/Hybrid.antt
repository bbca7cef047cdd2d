-- ===== src/Shmem/Hybrid.antt =====
-- The tests under SHMEM/hybrid.
pub mod Single
pub mod Loops
pub mod Sections
pub mod Tasks
