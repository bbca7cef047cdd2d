-- ===== src/Shmem/Results/Misc.antt =====
-- The labels of the tests of SHMEM/misc, and their use of OpenSHMEM.
use rmarace_bench.Base.{◌≡◌, refl, true, ◌++◌, List, all, Memᴰ, mem_either}
use rmarace_bench.TestCase.{TestCase, IsRight, right?, right?-all}
use rmarace_bench.Shmem.Call.{Call}
use rmarace_bench.Shmem.Guarantees.{behaviour}
use rmarace_bench.Shmem.Library.{shmem_library}
use rmarace_bench.Usage.{IsWellFormed, well_formed?, well_formed?-all}
use rmarace_bench.Shmem.Misc.DeepNesting.{
  deep_nesting_tests, putnbi_load_deep_nesting_local_no, getnbi_load_deep_nesting_local_yes,
  get_load_deep_nesting_remote_no, get_store_deep_nesting_remote_yes,
}
use rmarace_bench.Shmem.Misc.Pointers.{
  pointers_tests, putnbi_load_aliasing_local_no, getnbi_load_aliasing_local_yes,
  putnbi_load_retval_local_no, getnbi_load_retval_local_yes, putnbi_load_memcpy_local_no,
  getnbi_load_memcpy_local_yes,
}
use rmarace_bench.Shmem.Misc.TargetPointers.{
  target_pointers_tests, get_load_funcpointer_remote_no, get_store_funcpointer_remote_yes,
  get_load_aliasing_remote_no, get_store_aliasing_remote_yes, get_load_retval_remote_no,
  get_store_retval_remote_yes, get_load_memcpy_remote_no, get_store_memcpy_remote_yes,
}

deep_nesting_tests_checked : all (right? behaviour) deep_nesting_tests ≡ true
unfolding all behaviour right? putnbi_load_deep_nesting_local_no getnbi_load_deep_nesting_local_yes
    get_load_deep_nesting_remote_no get_store_deep_nesting_remote_yes
deep_nesting_tests_checked = refl

deep_nesting_tests-IsRight : (t : TestCase Call) → Memᴰ t deep_nesting_tests → IsRight behaviour t
deep_nesting_tests-IsRight = right?-all behaviour deep_nesting_tests deep_nesting_tests_checked

pointers_tests_checked : all (right? behaviour) pointers_tests ≡ true
unfolding all behaviour right? putnbi_load_aliasing_local_no getnbi_load_aliasing_local_yes
    putnbi_load_retval_local_no getnbi_load_retval_local_yes putnbi_load_memcpy_local_no
    getnbi_load_memcpy_local_yes
pointers_tests_checked = refl

pointers_tests-IsRight : (t : TestCase Call) → Memᴰ t pointers_tests → IsRight behaviour t
pointers_tests-IsRight = right?-all behaviour pointers_tests pointers_tests_checked

target_pointers_tests_checked : all (right? behaviour) target_pointers_tests ≡ true
unfolding all behaviour right? get_load_funcpointer_remote_no get_store_funcpointer_remote_yes
    get_load_aliasing_remote_no get_store_aliasing_remote_yes get_load_retval_remote_no
    get_store_retval_remote_yes get_load_memcpy_remote_no get_store_memcpy_remote_yes
target_pointers_tests_checked = refl

target_pointers_tests-IsRight :
    (t : TestCase Call) → Memᴰ t target_pointers_tests → IsRight behaviour t
target_pointers_tests-IsRight =
    right?-all behaviour target_pointers_tests target_pointers_tests_checked

abbrev pub misc_programs : List (TestCase Call)
misc_programs = deep_nesting_tests ++ pointers_tests ++ target_pointers_tests

-- The label of each test of SHMEM/misc (chains of calls, pointers with two names, function
-- pointers) holds, in all executions that the ordering rules of OpenSHMEM admit: the test can run
-- to its end, every race that it can show is between the two labelled statements, and if a race is
-- announced, one of its kind between these two can be shown, by accesses of the kinds in its
-- ACCESS_SET. The label asks for as many processes as `main` does.
pub misc_programs-IsRight : (t : TestCase Call) → Memᴰ t misc_programs → IsRight behaviour t
misc_programs-IsRight =
    mem_either deep_nesting_tests deep_nesting_tests-IsRight
      (mem_either pointers_tests pointers_tests-IsRight target_pointers_tests-IsRight)

misc_programs_usage : all (well_formed? shmem_library) misc_programs ≡ true
unfolding all well_formed? shmem_library putnbi_load_deep_nesting_local_no
    getnbi_load_deep_nesting_local_yes get_load_deep_nesting_remote_no
    get_store_deep_nesting_remote_yes putnbi_load_aliasing_local_no getnbi_load_aliasing_local_yes
    putnbi_load_retval_local_no getnbi_load_retval_local_yes putnbi_load_memcpy_local_no
    getnbi_load_memcpy_local_yes get_load_funcpointer_remote_no get_store_funcpointer_remote_yes
    get_load_aliasing_remote_no get_store_aliasing_remote_yes get_load_retval_remote_no
    get_store_retval_remote_yes get_load_memcpy_remote_no get_store_memcpy_remote_yes
misc_programs_usage = refl

pub misc_programs-IsWellFormed :
    (t : TestCase Call) → Memᴰ t misc_programs → IsWellFormed shmem_library t
misc_programs-IsWellFormed = well_formed?-all shmem_library misc_programs misc_programs_usage
