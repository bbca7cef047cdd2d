-- ===== src/Mpi/Misc.antt =====
-- The tests under MPIRMA/misc.
pub mod Nesting
pub mod Aliases
pub mod TargetAliases
