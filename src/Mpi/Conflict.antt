-- ===== src/Mpi/Conflict.antt =====
-- The tests of MPIRMA/conflict: one pair of operations each.
pub mod Local
pub mod LocalAtomic
pub mod GetRemote
pub mod PutRemote
pub mod AtomicRemote
