-- ===== src/Shmem/Conflict.antt =====
-- The tests under SHMEM/conflict.
pub mod LocalBuffer
pub mod LocalFetch
pub mod GetTarget
pub mod PutTarget
pub mod AtomicTarget
pub mod SingleTarget
pub mod StridedTarget
pub mod FetchTarget
