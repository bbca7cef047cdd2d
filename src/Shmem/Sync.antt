-- ===== src/Shmem/Sync.antt =====
-- The tests under SHMEM/sync.
pub mod Quiet
pub mod Order
pub mod CriticalSection
pub mod Wait
pub mod Context
