-- ===== src/Gaspi/Results/Sync.antt =====
-- The labels of the tests of GASPI/sync, and their use of GASPI.
use rmarace_bench.Base.{◌≡◌, refl, true, ◌++◌, ◌∷◌, [], List, all, Memᴰ, mem_either}
use rmarace_bench.TestCase.{
  TestCase, IsRight, right?, right?-all, IsMisdescribed, misdescribed?, misdescribed?-all,
}
use rmarace_bench.Race.Label.{AccessKind, rma_read, rma_write, local_load, local_store}
use rmarace_bench.Gaspi.Call.{Call}
use rmarace_bench.Gaspi.Guarantees.{behaviour}
use rmarace_bench.Gaspi.Library.{gaspi_library}
use rmarace_bench.Usage.{IsWellFormed, well_formed?, well_formed?-all}
use rmarace_bench.Gaspi.Sync.LocalWait.{
  local_wait_tests, wait_local_yes, wait_local_no, notify_waitsome_local_yes,
  notify_waitsome_local_no,
}
use rmarace_bench.Gaspi.Sync.Wait.{
  wait_tests, wait_barrier_remote_no, wait_barrier_remote_nonconsistent_yes,
  wait_barrier_remote_yes, wait_write_barrier_remote_yes,
}
use rmarace_bench.Gaspi.Sync.Notify.{
  notify_tests, notify_waitsome_remote_no, notify_waitsome_remote_yes,
}
use rmarace_bench.Gaspi.Sync.Messages.{
  messages_tests, wait_allreduce_remote_no, wait_allreduce_remote_yes, wait_sendrecv_remote_no,
  wait_sendrecv_remote_yes,
}

local_wait_tests_checked : all (right? behaviour) local_wait_tests ≡ true
unfolding all behaviour right? wait_local_yes wait_local_no notify_waitsome_local_yes
    notify_waitsome_local_no
local_wait_tests_checked = refl

local_wait_tests-IsRight : (t : TestCase Call) → Memᴰ t local_wait_tests → IsRight behaviour t
local_wait_tests-IsRight = right?-all behaviour local_wait_tests local_wait_tests_checked

wait_tests_checked : all (right? behaviour) wait_tests ≡ true
unfolding all behaviour right? wait_barrier_remote_no wait_barrier_remote_nonconsistent_yes
wait_tests_checked = refl

wait_tests-IsRight : (t : TestCase Call) → Memᴰ t wait_tests → IsRight behaviour t
wait_tests-IsRight = right?-all behaviour wait_tests wait_tests_checked

notify_tests_checked : all (right? behaviour) notify_tests ≡ true
unfolding all behaviour right? notify_waitsome_remote_no
notify_tests_checked = refl

notify_tests-IsRight : (t : TestCase Call) → Memᴰ t notify_tests → IsRight behaviour t
notify_tests-IsRight = right?-all behaviour notify_tests notify_tests_checked

messages_tests_checked : all (right? behaviour) messages_tests ≡ true
unfolding all behaviour right? wait_allreduce_remote_no wait_sendrecv_remote_no
    wait_sendrecv_remote_yes
messages_tests_checked = refl

messages_tests-IsRight : (t : TestCase Call) → Memᴰ t messages_tests → IsRight behaviour t
messages_tests-IsRight = right?-all behaviour messages_tests messages_tests_checked

abbrev pub waiting_tests : List (TestCase Call)
waiting_tests = local_wait_tests ++ wait_tests ++ notify_tests ++ messages_tests

-- The label of each test of GASPI/sync but 007, 008, 010 and 012 (gaspi_wait, barriers,
-- notifications, gaspi_allreduce and passive messages) holds, in all executions that the ordering
-- rules of GASPI admit: the test can run to its end, every race that it can show is between the
-- two labelled statements, and if a race is announced, one of its kind between these two can be
-- shown, by accesses of the kinds in its ACCESS_SET. The label asks for as many processes as
-- `main` does.
pub waiting_tests-IsRight : (t : TestCase Call) → Memᴰ t waiting_tests → IsRight behaviour t
waiting_tests-IsRight = mem_either local_wait_tests local_wait_tests-IsRight (
    mem_either wait_tests wait_tests-IsRight
      (mem_either notify_tests notify_tests-IsRight messages_tests-IsRight))

abbrev pub sync_cases : List (TestCase Call)
sync_cases =
    wait_local_yes ∷ wait_local_no ∷ notify_waitsome_local_yes ∷ notify_waitsome_local_no
    ∷ wait_barrier_remote_no ∷ wait_barrier_remote_nonconsistent_yes ∷ wait_barrier_remote_yes
    ∷ wait_write_barrier_remote_yes ∷ notify_waitsome_remote_no ∷ notify_waitsome_remote_yes
    ∷ wait_sendrecv_remote_no ∷ wait_sendrecv_remote_yes ∷ []

sync_cases_usage : all (well_formed? gaspi_library) sync_cases ≡ true
unfolding all well_formed? gaspi_library wait_local_yes wait_local_no notify_waitsome_local_yes
    notify_waitsome_local_no wait_barrier_remote_no wait_barrier_remote_nonconsistent_yes
    wait_barrier_remote_yes wait_write_barrier_remote_yes notify_waitsome_remote_no
    notify_waitsome_remote_yes wait_sendrecv_remote_no wait_sendrecv_remote_yes
sync_cases_usage = refl

pub sync_cases-IsWellFormed : (t : TestCase Call) → Memᴰ t sync_cases → IsWellFormed gaspi_library t
sync_cases-IsWellFormed = well_formed?-all gaspi_library sync_cases sync_cases_usage

-- Tests whose ACCESS_SET is not that of their race, with the kinds that are there.
abbrev pub misdescribed_waits : List (TestCase Call × (AccessKind × AccessKind))
misdescribed_waits =
    (wait_barrier_remote_yes, (rma_read, local_store))
    ∷ (wait_write_barrier_remote_yes, (rma_write, local_load))
    ∷ (wait_allreduce_remote_yes, (rma_read, local_store))
    ∷ []

misdescribed_waits_checked : all (misdescribed? behaviour) misdescribed_waits ≡ true
unfolding all behaviour misdescribed? wait_barrier_remote_yes wait_write_barrier_remote_yes
    wait_allreduce_remote_yes
misdescribed_waits_checked = refl

-- The labels of GASPI/sync/007, 008 and 012 do not hold: no race of the kind and between the two
-- statements that they name is, in any execution that the ordering rules admit, by accesses of the
-- kinds in ACCESS_SET, which names a one-sided write and a store. They would hold with the kinds
-- of the accesses that are there.
pub misdescribed_waits-IsMisdescribed :
    (t : TestCase Call) (s : AccessKind × AccessKind)
    → Memᴰ (t, s) misdescribed_waits
    → IsMisdescribed behaviour t s
misdescribed_waits-IsMisdescribed =
    misdescribed?-all behaviour misdescribed_waits misdescribed_waits_checked
