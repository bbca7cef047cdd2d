-- ===== src/Gaspi/Results/Usage.antt =====
-- The use of GASPI by the tests under GASPI.
use rmarace_bench.Base.{◌++◌, List, Memᴰ, mem_either}
use rmarace_bench.TestCase.{TestCase}
use rmarace_bench.Usage.{IsWellFormed}
use rmarace_bench.Gaspi.Call.{Call}
use rmarace_bench.Gaspi.Library.{gaspi_library}
use rmarace_bench.Gaspi.Results.Conflict.{conflict_cases, conflict_cases-IsWellFormed}
use rmarace_bench.Gaspi.Results.Sync.{sync_cases, sync_cases-IsWellFormed}
use rmarace_bench.Gaspi.Results.Misc.{misc_cases, misc_cases-IsWellFormed}

abbrev pub gaspi_tests : List (TestCase Call)
gaspi_tests = conflict_cases ++ sync_cases ++ misc_cases

-- Each of the tests of GASPI/conflict, atomic and misc, and of GASPI/sync but 011 and 012, uses
-- GASPI as it must: all its processes make the same collective calls in the same order, no access
-- leaves the segment or the variable that it is to, and in every execution that the ordering rules
-- admit each access of a one-sided call at its target is over before the process with the segment
-- enters gaspi_proc_term.
pub gaspi_tests-IsWellFormed :
    (t : TestCase Call) → Memᴰ t gaspi_tests → IsWellFormed gaspi_library t
gaspi_tests-IsWellFormed =
    mem_either conflict_cases conflict_cases-IsWellFormed
      (mem_either sync_cases sync_cases-IsWellFormed misc_cases-IsWellFormed)
