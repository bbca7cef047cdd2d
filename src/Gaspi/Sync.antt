-- ===== src/Gaspi/Sync.antt =====
-- The tests under GASPI/sync.
pub mod LocalWait
pub mod Wait
pub mod Notify
pub mod Messages
