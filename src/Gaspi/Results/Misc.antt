-- ===== src/Gaspi/Results/Misc.antt =====
-- The labels of the tests of GASPI/misc, and their use of GASPI.
use rmarace_bench.Base.{◌≡◌, refl, true, ◌++◌, ◌∷◌, [], List, all, Memᴰ, mem_either}
use rmarace_bench.TestCase.{TestCase, IsRight, right?, right?-all}
use rmarace_bench.Gaspi.Call.{Call}
use rmarace_bench.Gaspi.Guarantees.{behaviour}
use rmarace_bench.Gaspi.Library.{gaspi_library}
use rmarace_bench.Usage.{IsWellFormed, well_formed?, well_formed?-all}
use rmarace_bench.Gaspi.Misc.CallChains.{
  call_chains_tests, write_load_deep_nesting_local_no, read_load_deep_nesting_local_yes,
  read_load_deep_nesting_remote_no, read_store_deep_nesting_remote_yes,
}
use rmarace_bench.Gaspi.Misc.Pointers.{
  pointers_tests, write_load_aliasing_local_no, read_load_aliasing_local_yes,
  write_load_retval_local_no, read_load_retval_local_yes, write_load_memcpy_local_no,
  read_load_memcpy_local_yes,
}
use rmarace_bench.Gaspi.Misc.FunctionPointers.{
  function_pointers_tests, read_load_funcpointer_remote_no, read_store_funcpointer_remote_yes,
  read_load_aliasing_remote_no, read_store_aliasing_remote_yes, read_load_retval_remote_no,
  read_store_retval_remote_yes, read_load_memcpy_remote_no, read_store_memcpy_remote_yes,
}

call_chains_tests_checked : all (right? behaviour) call_chains_tests ≡ true
unfolding all behaviour right? write_load_deep_nesting_local_no read_load_deep_nesting_remote_no
call_chains_tests_checked = refl

call_chains_tests-IsRight : (t : TestCase Call) → Memᴰ t call_chains_tests → IsRight behaviour t
call_chains_tests-IsRight = right?-all behaviour call_chains_tests call_chains_tests_checked

pointers_tests_checked : all (right? behaviour) pointers_tests ≡ true
unfolding all behaviour right? write_load_aliasing_local_no read_load_aliasing_local_yes
    write_load_retval_local_no read_load_retval_local_yes write_load_memcpy_local_no
    read_load_memcpy_local_yes
pointers_tests_checked = refl

pointers_tests-IsRight : (t : TestCase Call) → Memᴰ t pointers_tests → IsRight behaviour t
pointers_tests-IsRight = right?-all behaviour pointers_tests pointers_tests_checked

function_pointers_tests_checked : all (right? behaviour) function_pointers_tests ≡ true
unfolding all behaviour right? read_load_funcpointer_remote_no read_store_funcpointer_remote_yes
    read_load_aliasing_remote_no read_store_aliasing_remote_yes read_load_retval_remote_no
    read_store_retval_remote_yes read_load_memcpy_remote_no read_store_memcpy_remote_yes
function_pointers_tests_checked = refl

function_pointers_tests-IsRight :
    (t : TestCase Call) → Memᴰ t function_pointers_tests → IsRight behaviour t
function_pointers_tests-IsRight =
    right?-all behaviour function_pointers_tests function_pointers_tests_checked

abbrev pub pointer_tests : List (TestCase Call)
pointer_tests = call_chains_tests ++ pointers_tests ++ function_pointers_tests

-- The label of each test of GASPI/misc but 002 and 010 (chains of calls, pointers with two names,
-- function pointers) holds, in all executions that the ordering rules of GASPI admit: the test can
-- run to its end, every race that it can show is between the two labelled statements, and if a
-- race is announced, one of its kind between these two can be shown, by accesses of the kinds in
-- its ACCESS_SET. The label asks for as many processes as `main` does.
pub pointer_tests-IsRight : (t : TestCase Call) → Memᴰ t pointer_tests → IsRight behaviour t
pointer_tests-IsRight =
    mem_either call_chains_tests call_chains_tests-IsRight
      (mem_either pointers_tests pointers_tests-IsRight function_pointers_tests-IsRight)

abbrev pub misc_cases : List (TestCase Call)
misc_cases =
    write_load_deep_nesting_local_no ∷ read_load_deep_nesting_local_yes
    ∷ read_load_deep_nesting_remote_no ∷ read_store_deep_nesting_remote_yes
    ∷ write_load_aliasing_local_no ∷ read_load_aliasing_local_yes ∷ write_load_retval_local_no
    ∷ read_load_retval_local_yes ∷ write_load_memcpy_local_no ∷ read_load_memcpy_local_yes
    ∷ read_load_funcpointer_remote_no ∷ read_store_funcpointer_remote_yes
    ∷ read_load_aliasing_remote_no ∷ read_store_aliasing_remote_yes ∷ read_load_retval_remote_no
    ∷ read_store_retval_remote_yes ∷ read_load_memcpy_remote_no ∷ read_store_memcpy_remote_yes ∷ []

misc_cases_usage : all (well_formed? gaspi_library) misc_cases ≡ true
unfolding all well_formed? gaspi_library write_load_deep_nesting_local_no
    read_load_deep_nesting_local_yes read_load_deep_nesting_remote_no
    read_store_deep_nesting_remote_yes write_load_aliasing_local_no read_load_aliasing_local_yes
    write_load_retval_local_no read_load_retval_local_yes write_load_memcpy_local_no
    read_load_memcpy_local_yes read_load_funcpointer_remote_no read_store_funcpointer_remote_yes
    read_load_aliasing_remote_no read_store_aliasing_remote_yes read_load_retval_remote_no
    read_store_retval_remote_yes read_load_memcpy_remote_no read_store_memcpy_remote_yes
misc_cases_usage = refl

pub misc_cases-IsWellFormed : (t : TestCase Call) → Memᴰ t misc_cases → IsWellFormed gaspi_library t
misc_cases-IsWellFormed = well_formed?-all gaspi_library misc_cases misc_cases_usage
