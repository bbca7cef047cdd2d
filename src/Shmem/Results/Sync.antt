-- ===== src/Shmem/Results/Sync.antt =====
-- The labels of the tests of SHMEM/sync, and their use of OpenSHMEM.
use rmarace_bench.Base.{◌≡◌, refl, true, ◌++◌, ◌∷◌, [], List, all, Memᴰ, mem_either}
use rmarace_bench.TestCase.{TestCase, IsRight, right?, right?-all}
use rmarace_bench.Shmem.Call.{Call}
use rmarace_bench.Shmem.Guarantees.{behaviour}
use rmarace_bench.Shmem.Library.{shmem_library}
use rmarace_bench.Usage.{IsWellFormed, well_formed?, well_formed?-all}
use rmarace_bench.Shmem.Sync.Quiet.{
  quiet_tests, barrierall_local_yes, barrierall_local_no, quiet_local_yes, quiet_local_no,
}
use rmarace_bench.Shmem.Sync.Order.{
  order_tests, barrierall_remote_yes, barrierall_remote_no, quiet_sync_remote_no,
  quiet_sync_remote_yes, fence_put_put_remote_no, fence_getnbi_put_remote_yes,
}
use rmarace_bench.Shmem.Sync.CriticalSection.{
  critical_section_tests, lock_remote_no, lock_remote_yes,
}
use rmarace_bench.Shmem.Sync.Wait.{
  wait_tests, waituntil_local_no, waituntil_local_yes, waituntil_remote_yes, waituntil_remote_no,
}

quiet_tests_checked : all (right? behaviour) quiet_tests ≡ true
unfolding all behaviour right? barrierall_local_no quiet_local_no
quiet_tests_checked = refl

quiet_tests-IsRight : (t : TestCase Call) → Memᴰ t quiet_tests → IsRight behaviour t
quiet_tests-IsRight = right?-all behaviour quiet_tests quiet_tests_checked

order_tests_checked : all (right? behaviour) order_tests ≡ true
unfolding all behaviour right? barrierall_remote_yes barrierall_remote_no quiet_sync_remote_no
    quiet_sync_remote_yes fence_put_put_remote_no
order_tests_checked = refl

order_tests-IsRight : (t : TestCase Call) → Memᴰ t order_tests → IsRight behaviour t
order_tests-IsRight = right?-all behaviour order_tests order_tests_checked

critical_section_tests_checked : all (right? behaviour) critical_section_tests ≡ true
unfolding all behaviour right? lock_remote_no lock_remote_yes
critical_section_tests_checked = refl

critical_section_tests-IsRight :
    (t : TestCase Call) → Memᴰ t critical_section_tests → IsRight behaviour t
critical_section_tests-IsRight =
    right?-all behaviour critical_section_tests critical_section_tests_checked

wait_tests_checked : all (right? behaviour) wait_tests ≡ true
unfolding all behaviour right? waituntil_local_no waituntil_local_yes waituntil_remote_yes
    waituntil_remote_no
wait_tests_checked = refl

wait_tests-IsRight : (t : TestCase Call) → Memᴰ t wait_tests → IsRight behaviour t
wait_tests-IsRight = right?-all behaviour wait_tests wait_tests_checked

abbrev pub completion_tests : List (TestCase Call)
completion_tests = quiet_tests ++ order_tests ++ critical_section_tests ++ wait_tests

-- The label of each test of SHMEM/sync/002, 004 to 011 and 013 to 016 (shmem_quiet, barriers,
-- shmem_sync, fences, locks and waiting for a value) holds, in all executions that the ordering
-- rules of OpenSHMEM admit: the test can run to its end, every race that it can show is between
-- the two labelled statements, and if a race is announced, one of its kind between these two can
-- be shown, by accesses of the kinds in its ACCESS_SET. The label asks for as many processes as
-- `main` does.
pub completion_tests-IsRight : (t : TestCase Call) → Memᴰ t completion_tests → IsRight behaviour t
completion_tests-IsRight = mem_either quiet_tests quiet_tests-IsRight (
    mem_either order_tests order_tests-IsRight
      (mem_either critical_section_tests critical_section_tests-IsRight wait_tests-IsRight))

abbrev pub sync_programs : List (TestCase Call)
sync_programs =
    barrierall_local_yes ∷ barrierall_local_no ∷ quiet_local_yes ∷ quiet_local_no
    ∷ barrierall_remote_yes ∷ barrierall_remote_no ∷ quiet_sync_remote_no ∷ quiet_sync_remote_yes
    ∷ fence_put_put_remote_no ∷ fence_getnbi_put_remote_yes ∷ lock_remote_no ∷ lock_remote_yes
    ∷ waituntil_local_no ∷ waituntil_local_yes ∷ waituntil_remote_yes ∷ waituntil_remote_no ∷ []

sync_programs_usage : all (well_formed? shmem_library) sync_programs ≡ true
unfolding all well_formed? shmem_library barrierall_local_yes barrierall_local_no quiet_local_yes
    quiet_local_no barrierall_remote_yes barrierall_remote_no quiet_sync_remote_no
    quiet_sync_remote_yes fence_put_put_remote_no fence_getnbi_put_remote_yes lock_remote_no
    lock_remote_yes waituntil_local_no waituntil_local_yes waituntil_remote_yes waituntil_remote_no
sync_programs_usage = refl

pub sync_programs-IsWellFormed :
    (t : TestCase Call) → Memᴰ t sync_programs → IsWellFormed shmem_library t
sync_programs-IsWellFormed = well_formed?-all shmem_library sync_programs sync_programs_usage
