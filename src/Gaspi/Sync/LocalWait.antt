-- ===== src/Gaspi/Sync/LocalWait.antt =====
-- Completion of the local buffer: tests of GASPI/sync.
use rmarace_bench.Base.{List, [], ◌∷◌, ◌==◌}
use rmarace_bench.Race.Access.{int, size_of}
use rmarace_bench.Race.Label.{local_race, buffer_read, buffer_write, local_load, local_store}
use rmarace_bench.Program.{◌>>◌, when, load_int, store_int, elem}
use rmarace_bench.TestCase.{TestCase, test, racy, quiet}
use rmarace_bench.Gaspi.Call.{place, Call, gaspi}
use rmarace_bench.Gaspi.Boilerplate.{
  loc_seg_id, remote_seg_id, queue_id, localbuf, prologue, epilogue,
}

-- GASPI/sync/001-GASPI-sync-wait-local-yes.c
unfoldable pub wait_local_yes : TestCase Call
unfolding prologue epilogue
wait_local_yes =
    test "GASPI/sync/001-GASPI-sync-wait-local-yes.c"
      (racy local_race buffer_write local_load "gaspi_read" 64 "LOAD" 67 2) 2
      λ rank num. do
        prologue 27 2 num
        gaspi 60 Call.barrier
        when (rank == 0) do
          gaspi 64 (Call.read (place loc_seg_id 0) 1 (place remote_seg_id 0) (size_of int) queue_id)
          load_int 67 (elem localbuf 0)
        gaspi 70 Call.barrier
        epilogue 72 rank num

-- GASPI/sync/002-GASPI-sync-wait-local-no.c
unfoldable pub wait_local_no : TestCase Call
unfolding prologue epilogue
wait_local_no = test "GASPI/sync/002-GASPI-sync-wait-local-no.c" (quiet 2) 2 λ rank num. do
  prologue 26 2 num
  gaspi 59 Call.barrier
  when (rank == 0) do
    gaspi 62 (Call.read (place loc_seg_id 0) 1 (place remote_seg_id 0) (size_of int) queue_id)
    gaspi 63 (Call.wait queue_id)
    load_int 64 (elem localbuf 0)
  gaspi 67 Call.barrier
  epilogue 69 rank num

-- GASPI/sync/003-GASPI-sync-notify-waitsome-local-yes.c
unfoldable pub notify_waitsome_local_yes : TestCase Call
unfolding prologue epilogue
notify_waitsome_local_yes =
    test "GASPI/sync/003-GASPI-sync-notify-waitsome-local-yes.c"
      (racy local_race buffer_read local_store "gaspi_write_notify" 65 "STORE" 69 2) 2
      λ rank num. do
        prologue 27 2 num
        gaspi 60 Call.barrier
        when (rank == 0) do
          store_int 63 localbuf 42
          gaspi 65 (
              Call.write_notify (place loc_seg_id 0) 1 (place remote_seg_id 0) (size_of int) 0 1
                queue_id)
          gaspi 67 (Call.notify_waitsome remote_seg_id 0 1)
          store_int 69 localbuf 1337
        when (rank == 1) do gaspi 73 (Call.notify remote_seg_id 0 0 1 queue_id)
        gaspi 76 Call.barrier
        epilogue 78 rank num

-- GASPI/sync/004-GASPI-sync-notify-waitsome-local-no.c
unfoldable pub notify_waitsome_local_no : TestCase Call
unfolding prologue epilogue
notify_waitsome_local_no =
    test "GASPI/sync/004-GASPI-sync-notify-waitsome-local-no.c" (quiet 2) 2 λ rank num. do
      prologue 26 2 num
      gaspi 59 Call.barrier
      when (rank == 0) do
        store_int 62 localbuf 42
        gaspi 63 (
            Call.write_notify (place loc_seg_id 0) 1 (place remote_seg_id 0) (size_of int) 0 1
              queue_id)
        gaspi 65 (Call.notify_waitsome remote_seg_id 0 1)
        store_int 66 localbuf 1337
      when (rank == 1) do
        gaspi 71 (Call.notify_waitsome remote_seg_id 0 1)
        gaspi 72 (Call.notify remote_seg_id 0 0 1 queue_id)
      gaspi 75 Call.barrier
      epilogue 77 rank num

abbrev pub local_wait_tests : List (TestCase Call)
local_wait_tests =
    wait_local_yes ∷ wait_local_no ∷ notify_waitsome_local_yes ∷ notify_waitsome_local_no ∷ []
