-- ===== src/Gaspi/Sync/Wait.antt =====
-- gaspi_wait and gaspi_barrier: tests of GASPI/sync.
use rmarace_bench.Base.{List, [], ◌∷◌, ◌==◌}
use rmarace_bench.Race.Access.{int, size_of}
use rmarace_bench.Race.Label.{remote_race, local_store, rma_read, rma_write}
use rmarace_bench.Program.{◌>>◌, when, load_int, store_int, elem}
use rmarace_bench.TestCase.{TestCase, test, racy, quiet}
use rmarace_bench.Gaspi.Call.{place, Call, gaspi}
use rmarace_bench.Gaspi.Boilerplate.{
  loc_seg_id, remote_seg_id, queue_id, remote_data, prologue, epilogue,
}

-- GASPI/sync/005-GASPI-sync-wait-barrier-remote-no.c
unfoldable pub wait_barrier_remote_no : TestCase Call
unfolding prologue epilogue
wait_barrier_remote_no =
    test "GASPI/sync/005-GASPI-sync-wait-barrier-remote-no.c" (quiet 2) 2 λ rank num. do
      prologue 26 2 num
      gaspi 59 Call.barrier
      when (rank == 0) do
        gaspi 62 (Call.read (place loc_seg_id 0) 1 (place remote_seg_id 0) (size_of int) queue_id)
        gaspi 63 (Call.wait queue_id)
      gaspi 66 Call.barrier
      when (rank == 1) do store_int 69 (elem remote_data 0) 42
      epilogue 72 rank num

-- GASPI/sync/006-GASPI-sync-wait-barrier-remote-nonconsistent-yes.c
unfoldable pub wait_barrier_remote_nonconsistent_yes : TestCase Call
unfolding prologue epilogue
wait_barrier_remote_nonconsistent_yes =
    test "GASPI/sync/006-GASPI-sync-wait-barrier-remote-nonconsistent-yes.c"
      (racy remote_race rma_read local_store "gaspi_read" 64 "STORE" 72 2) 2
      λ rank num. do
        prologue 27 2 num
        gaspi 60 Call.barrier
        when (rank == 0) do
          gaspi 64 (Call.read (place loc_seg_id 0) 1 (place remote_seg_id 0) (size_of int) queue_id)
        gaspi 68 Call.barrier
        when (rank == 1) do store_int 72 (elem remote_data 0) 42
        epilogue 75 rank num

-- GASPI/sync/007-GASPI-sync-wait-barrier-remote-yes.c
unfoldable pub wait_barrier_remote_yes : TestCase Call
unfolding prologue epilogue
wait_barrier_remote_yes =
    test "GASPI/sync/007-GASPI-sync-wait-barrier-remote-yes.c"
      (racy remote_race rma_write local_store "gaspi_read" 64 "STORE" 72 2) 2
      λ rank num. do
        prologue 27 2 num
        gaspi 60 Call.barrier
        when (rank == 0) do
          gaspi 64 (Call.read (place loc_seg_id 0) 1 (place remote_seg_id 0) (size_of int) queue_id)
          gaspi 65 (Call.wait queue_id)
        when (rank == 1) do store_int 72 (elem remote_data 0) 42
        epilogue 75 rank num

-- GASPI/sync/008-GASPI-sync-wait-write-barrier-remote-yes.c
unfoldable pub wait_write_barrier_remote_yes : TestCase Call
unfolding prologue epilogue
wait_write_barrier_remote_yes =
    test "GASPI/sync/008-GASPI-sync-wait-write-barrier-remote-yes.c"
      (racy remote_race rma_write local_store "gaspi_write" 66 "LOAD" 74 2) 2
      λ rank num. do
        prologue 29 2 num
        gaspi 62 Call.barrier
        when (rank == 0) do
          gaspi 66
              (Call.write (place loc_seg_id 0) 1 (place remote_seg_id 0) (size_of int) queue_id)
          gaspi 67 (Call.wait queue_id)
        gaspi 70 Call.barrier
        when (rank == 1) do load_int 74 (elem remote_data 0)
        epilogue 77 rank num

abbrev pub wait_tests : List (TestCase Call)
wait_tests = wait_barrier_remote_no ∷ wait_barrier_remote_nonconsistent_yes ∷ []
