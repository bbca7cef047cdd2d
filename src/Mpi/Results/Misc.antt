-- ===== src/Mpi/Results/Misc.antt =====
-- The labels of the tests of MPIRMA/misc, and their use of MPI.
use rmarace_bench.Base.{◌≡◌, refl, true, ◌++◌, List, all, Memᴰ, mem_either}
use rmarace_bench.TestCase.{TestCase, IsRight, right?, right?-all}
use rmarace_bench.Mpi.Call.{Call}
use rmarace_bench.Mpi.Guarantees.{behaviour}
use rmarace_bench.Mpi.Library.{mpi_library}
use rmarace_bench.Usage.{IsWellFormed, well_formed?, well_formed?-all}
use rmarace_bench.Mpi.Misc.Nesting.{
  nesting_tests, put_load_deep_nesting_local_no, get_load_deep_nesting_local_yes,
  get_load_deep_nesting_remote_no, get_store_deep_nesting_remote_yes,
}
use rmarace_bench.Mpi.Misc.Aliases.{
  aliases_tests, put_load_aliasing_local_no, get_load_aliasing_local_yes, put_load_retval_local_no,
  get_load_retval_local_yes, put_load_memcpy_local_no, get_load_memcpy_local_yes,
}
use rmarace_bench.Mpi.Misc.TargetAliases.{
  target_aliases_tests, get_load_funcpointer_remote_no, get_store_funcpointer_remote_yes,
  get_load_aliasing_remote_no, get_store_aliasing_remote_yes, get_load_retval_remote_no,
  get_store_retval_remote_yes, get_load_memcpy_remote_no, get_store_memcpy_remote_yes,
}

nesting_tests_checked : all (right? behaviour) nesting_tests ≡ true
unfolding all behaviour right? put_load_deep_nesting_local_no get_load_deep_nesting_local_yes
    get_load_deep_nesting_remote_no get_store_deep_nesting_remote_yes
nesting_tests_checked = refl

nesting_tests-IsRight : (t : TestCase Call) → Memᴰ t nesting_tests → IsRight behaviour t
nesting_tests-IsRight = right?-all behaviour nesting_tests nesting_tests_checked

aliases_tests_checked : all (right? behaviour) aliases_tests ≡ true
unfolding all behaviour right? put_load_aliasing_local_no get_load_aliasing_local_yes
    put_load_retval_local_no get_load_retval_local_yes put_load_memcpy_local_no
    get_load_memcpy_local_yes
aliases_tests_checked = refl

aliases_tests-IsRight : (t : TestCase Call) → Memᴰ t aliases_tests → IsRight behaviour t
aliases_tests-IsRight = right?-all behaviour aliases_tests aliases_tests_checked

target_aliases_tests_checked : all (right? behaviour) target_aliases_tests ≡ true
unfolding all behaviour right? get_load_funcpointer_remote_no get_store_funcpointer_remote_yes
    get_load_aliasing_remote_no get_store_aliasing_remote_yes get_load_retval_remote_no
    get_store_retval_remote_yes get_load_memcpy_remote_no get_store_memcpy_remote_yes
target_aliases_tests_checked = refl

target_aliases_tests-IsRight :
    (t : TestCase Call) → Memᴰ t target_aliases_tests → IsRight behaviour t
target_aliases_tests-IsRight =
    right?-all behaviour target_aliases_tests target_aliases_tests_checked

abbrev pub misc_tests : List (TestCase Call)
misc_tests = nesting_tests ++ aliases_tests ++ target_aliases_tests

-- The label of each test of MPIRMA/misc (chains of calls, pointers with two names, function
-- pointers) holds, in all executions that the ordering rules of MPI admit: the test can run to its
-- end, every race that it can show is between the two labelled statements, and if a race is
-- announced, one of its kind between these two can be shown, by accesses of the kinds in its
-- ACCESS_SET. The label asks for as many processes as `main` does.
pub misc_tests-IsRight : (t : TestCase Call) → Memᴰ t misc_tests → IsRight behaviour t
misc_tests-IsRight =
    mem_either nesting_tests nesting_tests-IsRight
      (mem_either aliases_tests aliases_tests-IsRight target_aliases_tests-IsRight)

misc_tests_usage : all (well_formed? mpi_library) misc_tests ≡ true
unfolding all well_formed? mpi_library put_load_deep_nesting_local_no
    get_load_deep_nesting_local_yes get_load_deep_nesting_remote_no
    get_store_deep_nesting_remote_yes put_load_aliasing_local_no get_load_aliasing_local_yes
    put_load_retval_local_no get_load_retval_local_yes put_load_memcpy_local_no
    get_load_memcpy_local_yes get_load_funcpointer_remote_no get_store_funcpointer_remote_yes
    get_load_aliasing_remote_no get_store_aliasing_remote_yes get_load_retval_remote_no
    get_store_retval_remote_yes get_load_memcpy_remote_no get_store_memcpy_remote_yes
misc_tests_usage = refl

pub misc_tests-IsWellFormed : (t : TestCase Call) → Memᴰ t misc_tests → IsWellFormed mpi_library t
misc_tests-IsWellFormed = well_formed?-all mpi_library misc_tests misc_tests_usage
