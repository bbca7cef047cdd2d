-- ===== src/Gaspi/Sync/Notify.antt =====
-- Notifications: tests of GASPI/sync.
use rmarace_bench.Base.{List, [], ◌∷◌, ◌==◌}
use rmarace_bench.Race.Access.{int, size_of}
use rmarace_bench.Race.Label.{remote_race, local_load, rma_write}
use rmarace_bench.Program.{◌>>◌, when, load_int, elem}
use rmarace_bench.TestCase.{TestCase, test, racy, quiet}
use rmarace_bench.Gaspi.Call.{place, Call, gaspi}
use rmarace_bench.Gaspi.Boilerplate.{
  loc_seg_id, remote_seg_id, queue_id, remote_data, prologue, epilogue,
}

-- GASPI/sync/009-GASPI-sync-notify-waitsome-remote-no.c
unfoldable pub notify_waitsome_remote_no : TestCase Call
unfolding prologue epilogue
notify_waitsome_remote_no =
    test "GASPI/sync/009-GASPI-sync-notify-waitsome-remote-no.c" (quiet 2) 2 λ rank num. do
      prologue 26 2 num
      gaspi 59 Call.barrier
      when (rank == 0) do
        gaspi 62 (
            Call.write_notify (place loc_seg_id 0) 1 (place remote_seg_id 0) (size_of int) 0 1
              queue_id)
        gaspi 63 (Call.wait queue_id)
      when (rank == 1)
          do gaspi 68 (Call.notify_waitsome remote_seg_id 0 1); load_int 70 (elem remote_data 0)
      epilogue 73 rank num

-- GASPI/sync/010-GASPI-sync-notify-waitsome-remote-yes.c
unfoldable pub notify_waitsome_remote_yes : TestCase Call
unfolding prologue epilogue
notify_waitsome_remote_yes =
    test "GASPI/sync/010-GASPI-sync-notify-waitsome-remote-yes.c"
      (racy remote_race rma_write local_load "gaspi_notify_write" 64 "LOAD" 72 2) 2
      λ rank num. do
        prologue 27 2 num
        gaspi 60 Call.barrier
        when (rank == 0) do
          gaspi 64 (
              Call.write_notify (place loc_seg_id 0) 1 (place remote_seg_id 0) (size_of int) 0 1
                queue_id)
          gaspi 65 (Call.wait queue_id)
        when (rank == 1) do load_int 72 (elem remote_data 0)
        epilogue 75 rank num

abbrev pub notify_tests : List (TestCase Call)
notify_tests = notify_waitsome_remote_no ∷ []
