-- ===== src/Race.antt =====
-- What a data race of a test case is, over the accesses to memory that its processes make: `Access`
-- says which two accesses conflict, `Execution` which timings the ordering rules admit, `Order` and
-- `Schedule` decide whether two accesses can overlap, and `Label` compares with a test's label.
pub mod Access
pub mod Execution
pub mod Order
pub mod Schedule
pub mod Label
