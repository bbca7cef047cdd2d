-- ===== src/Gaspi/Guarantees.antt =====
-- What the GASPI specification (17.1) says of the calls that the tests make: which memory they
-- access, when they complete it, and what they synchronise. From it, and from the traces of its
-- processes, follows the behaviour of a test, which the theorems assume of an execution.
mod Calls
mod Notifications
mod Completion
mod Accesses
unfoldable pub use Accesses.{behaviour}
