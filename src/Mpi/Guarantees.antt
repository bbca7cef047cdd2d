-- ===== src/Mpi/Guarantees.antt =====
-- What the MPI standard (3.1, chapter 11) says of the calls that the tests make: which memory they
-- access, when they complete an access of a one-sided call, and what they synchronise. From it, and
-- from the traces of its processes, follows the behaviour of a test, which the theorems assume of
-- an execution.
mod Calls
mod Locks
mod Completion
mod Synchronisation
mod Accesses
unfoldable pub use Accesses.{behaviour}
unfoldable pub use Synchronisation.{sends_to, receives_from}
