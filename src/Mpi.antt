-- ===== src/Mpi.antt =====
-- The test cases under MPIRMA: the calls that they make (`Call`), what the MPI standard guarantees
-- of them (`Guarantees`), and the tests.
pub mod Call
pub mod Guarantees
pub mod Boilerplate
pub mod Library
pub mod Conflict
pub mod Sync
pub mod Atomic
pub mod Misc
pub mod Hybrid
pub mod Results
mod Tests
