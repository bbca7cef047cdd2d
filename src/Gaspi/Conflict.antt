-- ===== src/Gaspi/Conflict.antt =====
-- The tests under GASPI/conflict.
pub mod WriteRead
pub mod Lists
pub mod Notified
pub mod NotifiedLists
pub mod AtRead
pub mod AtWrite
pub mod AtLists
pub mod AtNotified
pub mod AtNotifiedLists
