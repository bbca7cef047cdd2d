-- ===== src/Mpi/Hybrid.antt =====
-- The tests under MPIRMA/hybrid.
pub mod Single
pub mod Loops
pub mod Sections
pub mod Tasks
