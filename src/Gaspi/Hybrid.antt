-- ===== src/Gaspi/Hybrid.antt =====
-- The tests under GASPI/hybrid.
pub mod Single
pub mod Loops
pub mod Sections
pub mod Tasks
