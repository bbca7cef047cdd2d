-- ===== src/Shmem/Results/Usage.antt =====
-- The use of OpenSHMEM by the tests under SHMEM.
use rmarace_bench.Base.{◌++◌, List, Memᴰ, mem_either}
use rmarace_bench.TestCase.{TestCase}
use rmarace_bench.Usage.{IsWellFormed}
use rmarace_bench.Shmem.Call.{Call}
use rmarace_bench.Shmem.Library.{shmem_library}
use rmarace_bench.Shmem.Results.Conflict.{conflict_programs, conflict_programs-IsWellFormed}
use rmarace_bench.Shmem.Results.Sync.{sync_programs, sync_programs-IsWellFormed}
use rmarace_bench.Shmem.Results.Misc.{misc_programs, misc_programs-IsWellFormed}

abbrev pub shmem_tests : List (TestCase Call)
shmem_tests = conflict_programs ++ sync_programs ++ misc_programs

-- Each of the tests of SHMEM/conflict, of SHMEM/sync/001 to 016, of SHMEM/atomic/004 to 009 and of
-- SHMEM/misc uses OpenSHMEM as it must: all its processes make the same collective calls in the
-- same order, no access leaves the variable that it is to, and in every execution that the
-- ordering rules admit each access of a one-sided call at its target is over before any process
-- enters shmem_finalize.
pub shmem_tests-IsWellFormed :
    (t : TestCase Call) → Memᴰ t shmem_tests → IsWellFormed shmem_library t
shmem_tests-IsWellFormed =
    mem_either conflict_programs conflict_programs-IsWellFormed
      (mem_either sync_programs sync_programs-IsWellFormed misc_programs-IsWellFormed)
