-- ===== src/Gaspi/Misc.antt =====
-- The tests under GASPI/misc.
pub mod CallChains
pub mod Pointers
pub mod FunctionPointers
