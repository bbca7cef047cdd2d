-- ===== src/Mpi/Results/Sync.antt =====
-- The labels of the tests of MPIRMA/sync, and their use of MPI.
use rmarace_bench.Base.{◌≡◌, refl, true, ◌++◌, ◌∷◌, [], List, all, Memᴰ, mem_either}
use rmarace_bench.TestCase.{TestCase, IsRight, right?, right?-all}
use rmarace_bench.Mpi.Call.{Call}
use rmarace_bench.Mpi.Guarantees.{behaviour}
use rmarace_bench.Mpi.Library.{mpi_library}
use rmarace_bench.Usage.{IsWellFormed, well_formed?, well_formed?-all}
use rmarace_bench.Mpi.Sync.Fence.{
  fence_tests, fence_local_yes, fence_local_no, fence_3procs_remote_yes, fence_3procs_remote_no,
}
use rmarace_bench.Mpi.Sync.General.{
  general_tests, request_local_yes, request_local_no, pscw_local_yes, pscw_local_no, pscw_remote_no,
  pscw_remote_yes,
}
use rmarace_bench.Mpi.Sync.Lock.{
  lock_tests, lock_local_yes, lock_local_no, lock_flush_local_yes, lock_flush_local_no,
  lockall_flushlocalall_local_yes, lockall_flushlocalall_local_no,
}
use rmarace_bench.Mpi.Sync.LockAll.{
  lock_all_tests, lockall_flushall_remote_no, lockall_flushall_remote_yes,
  lockall_barrier_remote_no, lockall_barrier_remote_yes, lockall_remote_yes,
}
use rmarace_bench.Mpi.Sync.LockBarrier.{
  lock_barrier_tests, lock_barrier_nonconsistent_remote_yes, lock_barrier_remote_yes,
  lock_barrier_remote_no, lock_barrier_sameorigin_remote_no, lock_barrier_sameorigin_remote_yes,
  lock_flushlocal_sameorigin_remote_yes, lock_flushlocal_sameorigin_remote_no,
}
use rmarace_bench.Mpi.Sync.Exclusive.{
  exclusive_tests, lock_exclusive_remote_no, lock_exclusive_3procs_remote_no,
  lock_exclusive_remote_yes,
}
use rmarace_bench.Mpi.Sync.SendRecv.{
  send_recv_tests, lock_sendrecv_remote_yes, lock_sendrecv_remote_no,
  lock_sendrecv_3procs_remote_no, lock_sendrecv_3procs_remote_yes,
}

fence_tests_checked : all (right? behaviour) fence_tests ≡ true
unfolding all behaviour right? fence_local_no fence_3procs_remote_yes fence_3procs_remote_no
fence_tests_checked = refl

fence_tests-IsRight : (t : TestCase Call) → Memᴰ t fence_tests → IsRight behaviour t
fence_tests-IsRight = right?-all behaviour fence_tests fence_tests_checked

general_tests_checked : all (right? behaviour) general_tests ≡ true
unfolding all behaviour right? request_local_yes request_local_no pscw_local_yes pscw_local_no
    pscw_remote_no pscw_remote_yes
general_tests_checked = refl

general_tests-IsRight : (t : TestCase Call) → Memᴰ t general_tests → IsRight behaviour t
general_tests-IsRight = right?-all behaviour general_tests general_tests_checked

abbrev pub active_sync : List (TestCase Call)
active_sync = fence_tests ++ general_tests

-- The label of each test of MPIRMA/sync/002, 009 to 012, 018, 019, 034 and 035 (fences; requests;
-- post, start, complete and wait) holds, in all executions that the ordering rules of MPI admit:
-- the test can run to its end, every race that it can show is between the two labelled statements,
-- and if a race is announced, one of its kind between these two can be shown, by accesses of the
-- kinds in its ACCESS_SET. The label asks for as many processes as `main` does.
pub active_sync-IsRight : (t : TestCase Call) → Memᴰ t active_sync → IsRight behaviour t
active_sync-IsRight = mem_either fence_tests fence_tests-IsRight general_tests-IsRight

lock_tests_checked : all (right? behaviour) lock_tests ≡ true
unfolding all behaviour right? lock_local_yes lock_local_no lock_flush_local_yes lock_flush_local_no
    lockall_flushlocalall_local_yes lockall_flushlocalall_local_no
lock_tests_checked = refl

lock_tests-IsRight : (t : TestCase Call) → Memᴰ t lock_tests → IsRight behaviour t
lock_tests-IsRight = right?-all behaviour lock_tests lock_tests_checked

lock_all_tests_checked : all (right? behaviour) lock_all_tests ≡ true
unfolding all behaviour right? lockall_flushall_remote_no lockall_flushall_remote_yes
    lockall_barrier_remote_no lockall_barrier_remote_yes lockall_remote_yes
lock_all_tests_checked = refl

lock_all_tests-IsRight : (t : TestCase Call) → Memᴰ t lock_all_tests → IsRight behaviour t
lock_all_tests-IsRight = right?-all behaviour lock_all_tests lock_all_tests_checked

abbrev pub passive_sync : List (TestCase Call)
passive_sync = lock_tests ++ lock_all_tests

-- The label of each test of MPIRMA/sync/003 to 008 and 013 to 017 (completion in passive target
-- epochs) holds, in all executions that the ordering rules of MPI admit: the test can run to its
-- end, every race that it can show is between the two labelled statements, and if a race is
-- announced, one of its kind between these two can be shown, by accesses of the kinds in its
-- ACCESS_SET. The label asks for as many processes as `main` does.
pub passive_sync-IsRight : (t : TestCase Call) → Memᴰ t passive_sync → IsRight behaviour t
passive_sync-IsRight = mem_either lock_tests lock_tests-IsRight lock_all_tests-IsRight

lock_barrier_tests_checked : all (right? behaviour) lock_barrier_tests ≡ true
unfolding all behaviour right? lock_barrier_nonconsistent_remote_yes lock_barrier_remote_yes
    lock_barrier_remote_no lock_barrier_sameorigin_remote_no lock_barrier_sameorigin_remote_yes
    lock_flushlocal_sameorigin_remote_no
lock_barrier_tests_checked = refl

lock_barrier_tests-IsRight : (t : TestCase Call) → Memᴰ t lock_barrier_tests → IsRight behaviour t
lock_barrier_tests-IsRight = right?-all behaviour lock_barrier_tests lock_barrier_tests_checked

exclusive_tests_checked : all (right? behaviour) exclusive_tests ≡ true
unfolding all behaviour right? lock_exclusive_remote_no lock_exclusive_3procs_remote_no
    lock_exclusive_remote_yes
exclusive_tests_checked = refl

exclusive_tests-IsRight : (t : TestCase Call) → Memᴰ t exclusive_tests → IsRight behaviour t
exclusive_tests-IsRight = right?-all behaviour exclusive_tests exclusive_tests_checked

send_recv_tests_checked : all (right? behaviour) send_recv_tests ≡ true
unfolding all behaviour right? lock_sendrecv_remote_yes lock_sendrecv_remote_no
    lock_sendrecv_3procs_remote_no lock_sendrecv_3procs_remote_yes
send_recv_tests_checked = refl

send_recv_tests-IsRight : (t : TestCase Call) → Memᴰ t send_recv_tests → IsRight behaviour t
send_recv_tests-IsRight = right?-all behaviour send_recv_tests send_recv_tests_checked

abbrev pub ordered_sync : List (TestCase Call)
ordered_sync = lock_barrier_tests ++ exclusive_tests ++ send_recv_tests

-- The label of each test of MPIRMA/sync/020 to 024 and 026 to 033 (locks with barriers or
-- messages, and exclusive locks) holds, in all executions that the ordering rules of MPI admit:
-- the test can run to its end, every race that it can show is between the two labelled statements,
-- and if a race is announced, one of its kind between these two can be shown, by accesses of the
-- kinds in its ACCESS_SET. The label asks for as many processes as `main` does.
pub ordered_sync-IsRight : (t : TestCase Call) → Memᴰ t ordered_sync → IsRight behaviour t
ordered_sync-IsRight =
    mem_either lock_barrier_tests lock_barrier_tests-IsRight
      (mem_either exclusive_tests exclusive_tests-IsRight send_recv_tests-IsRight)

abbrev pub sync_tests : List (TestCase Call)
sync_tests =
    fence_local_yes ∷ fence_local_no ∷ fence_3procs_remote_yes ∷ fence_3procs_remote_no
    ∷ request_local_yes ∷ request_local_no ∷ pscw_local_yes ∷ pscw_local_no ∷ pscw_remote_no
    ∷ pscw_remote_yes ∷ lock_local_yes ∷ lock_local_no ∷ lock_flush_local_yes ∷ lock_flush_local_no
    ∷ lockall_flushlocalall_local_yes ∷ lockall_flushlocalall_local_no ∷ lockall_flushall_remote_no
    ∷ lockall_flushall_remote_yes ∷ lockall_barrier_remote_no ∷ lockall_barrier_remote_yes
    ∷ lockall_remote_yes ∷ lock_barrier_nonconsistent_remote_yes ∷ lock_barrier_remote_yes
    ∷ lock_barrier_remote_no ∷ lock_barrier_sameorigin_remote_no
    ∷ lock_barrier_sameorigin_remote_yes ∷ lock_flushlocal_sameorigin_remote_yes
    ∷ lock_flushlocal_sameorigin_remote_no ∷ lock_exclusive_remote_no
    ∷ lock_exclusive_3procs_remote_no ∷ lock_exclusive_remote_yes ∷ lock_sendrecv_remote_yes
    ∷ lock_sendrecv_remote_no ∷ lock_sendrecv_3procs_remote_no ∷ lock_sendrecv_3procs_remote_yes
    ∷ []

sync_tests_usage : all (well_formed? mpi_library) sync_tests ≡ true
unfolding all well_formed? mpi_library fence_local_yes fence_local_no fence_3procs_remote_yes
    fence_3procs_remote_no request_local_yes request_local_no pscw_local_yes pscw_local_no
    pscw_remote_no pscw_remote_yes lock_local_yes lock_local_no lock_flush_local_yes
    lock_flush_local_no lockall_flushlocalall_local_yes lockall_flushlocalall_local_no
    lockall_flushall_remote_no lockall_flushall_remote_yes lockall_barrier_remote_no
    lockall_barrier_remote_yes lockall_remote_yes lock_barrier_nonconsistent_remote_yes
    lock_barrier_remote_yes lock_barrier_remote_no lock_barrier_sameorigin_remote_no
    lock_barrier_sameorigin_remote_yes lock_flushlocal_sameorigin_remote_yes
    lock_flushlocal_sameorigin_remote_no lock_exclusive_remote_no lock_exclusive_3procs_remote_no
    lock_exclusive_remote_yes lock_sendrecv_remote_yes lock_sendrecv_remote_no
    lock_sendrecv_3procs_remote_no lock_sendrecv_3procs_remote_yes
sync_tests_usage = refl

pub sync_tests-IsWellFormed : (t : TestCase Call) → Memᴰ t sync_tests → IsWellFormed mpi_library t
sync_tests-IsWellFormed = well_formed?-all mpi_library sync_tests sync_tests_usage
