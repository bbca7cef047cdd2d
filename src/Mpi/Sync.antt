-- ===== src/Mpi/Sync.antt =====
-- The tests of MPIRMA/sync: one way to synchronise each.
pub mod Fence
pub mod Lock
pub mod General
pub mod LockAll
pub mod LockBarrier
pub mod Exclusive
pub mod SendRecv
