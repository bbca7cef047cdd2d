-- ===== src/Shmem/Misc.antt =====
-- The tests under SHMEM/misc.
pub mod DeepNesting
pub mod Pointers
pub mod TargetPointers
