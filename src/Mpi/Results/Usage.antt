-- ===== src/Mpi/Results/Usage.antt =====
-- The use of MPI by the tests under MPIRMA.
use rmarace_bench.Base.{◌++◌, List, Memᴰ, mem_either}
use rmarace_bench.TestCase.{TestCase}
use rmarace_bench.Usage.{IsWellFormed}
use rmarace_bench.Mpi.Call.{Call}
use rmarace_bench.Mpi.Library.{mpi_library}
use rmarace_bench.Mpi.Results.Conflict.{conflict_tests, conflict_tests-IsWellFormed}
use rmarace_bench.Mpi.Results.Sync.{sync_tests, sync_tests-IsWellFormed}
use rmarace_bench.Mpi.Results.Misc.{misc_tests, misc_tests-IsWellFormed}

abbrev pub mpi_tests : List (TestCase Call)
mpi_tests = conflict_tests ++ sync_tests ++ misc_tests

-- Each of the tests of MPIRMA/conflict, of MPIRMA/sync but 036, and of MPIRMA/misc uses MPI as it
-- must: all its processes make the same collective calls in the same order, between any two of
-- them as many messages are received as are sent, no access leaves the window or the variable that
-- it is to, and in every execution that the ordering rules admit each access of a one-sided call
-- at its target is over before any process frees the window.
pub mpi_tests-IsWellFormed : (t : TestCase Call) → Memᴰ t mpi_tests → IsWellFormed mpi_library t
mpi_tests-IsWellFormed =
    mem_either conflict_tests conflict_tests-IsWellFormed
      (mem_either sync_tests sync_tests-IsWellFormed misc_tests-IsWellFormed)
