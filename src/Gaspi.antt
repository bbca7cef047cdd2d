-- ===== src/Gaspi.antt =====
-- The test cases under GASPI: the calls that they make (`Call`), what the GASPI specification
-- guarantees of them (`Guarantees`), and the tests.
pub mod Call
pub mod Guarantees
pub mod Boilerplate
pub mod Library
pub mod Conflict
pub mod Sync
pub mod Atomic
pub mod Misc
pub mod Hybrid
pub mod Results
mod Tests
