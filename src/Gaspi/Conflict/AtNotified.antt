-- ===== src/Gaspi/Conflict/AtNotified.antt =====
-- An operation with notification and a second access to its target: tests of GASPI/conflict.
use rmarace_bench.Base.{List, [], ◌∷◌, ◌==◌}
use rmarace_bench.Race.Access.{int, size_of}
use rmarace_bench.Race.Label.{remote_race, local_load, rma_read, rma_write}
use rmarace_bench.Program.{◌>>◌, when, load_int, store_int, elem}
use rmarace_bench.TestCase.{TestCase, test, racy, quiet}
use rmarace_bench.Gaspi.Call.{place, Call, gaspi}
use rmarace_bench.Gaspi.Boilerplate.{
  loc_seg_id, remote_seg_id, queue_id, localbuf, remote_data, prologue, epilogue,
}

-- GASPI/conflict/036-GASPI-conflict-write_notify-load-remote-yes.c
unfoldable pub write_notify_load_remote_yes : TestCase Call
unfolding prologue epilogue
write_notify_load_remote_yes =
    test "GASPI/conflict/036-GASPI-conflict-write_notify-load-remote-yes.c"
      (racy remote_race rma_write local_load "gaspi_write_notify" 63 "LOAD" 69 2) 2
      λ rank num. do
        prologue 25 2 num
        gaspi 58 Call.barrier
        when (rank == 0) do
          store_int 61 (elem localbuf 0) 1
          gaspi 63 (
              Call.write_notify (place loc_seg_id 0) 1 (place remote_seg_id 0) (size_of int) 0 1
                queue_id)
          gaspi 64 (Call.wait queue_id)
        when (rank == 1) do load_int 69 (elem remote_data 0)
        epilogue 72 rank num

-- GASPI/conflict/037-GASPI-conflict-write_notify-write-remote-yes.c
unfoldable pub write_notify_write_remote_yes : TestCase Call
unfolding prologue epilogue
write_notify_write_remote_yes =
    test "GASPI/conflict/037-GASPI-conflict-write_notify-write-remote-yes.c"
      (racy remote_race rma_write rma_write "gaspi_write_notify" 63 "gaspi_write" 70 3) 3
      λ rank num. do
        prologue 25 3 num
        gaspi 58 Call.barrier
        when (rank == 0) do
          store_int 61 (elem localbuf 0) 1
          gaspi 63 (
              Call.write_notify (place loc_seg_id 0) 1 (place remote_seg_id 0) (size_of int) 0 1
                queue_id)
          gaspi 64 (Call.wait queue_id)
        when (rank == 2) do
          store_int 68 (elem localbuf 0) 42
          gaspi 70
              (Call.write (place loc_seg_id 0) 1 (place remote_seg_id 0) (size_of int) queue_id)
          gaspi 71 (Call.wait queue_id)
        epilogue 74 rank num

-- GASPI/conflict/038-GASPI-conflict-read_notify-load-remote-no.c
unfoldable pub read_notify_load_remote_no : TestCase Call
unfolding prologue epilogue
read_notify_load_remote_no =
    test "GASPI/conflict/038-GASPI-conflict-read_notify-load-remote-no.c" (quiet 2) 2 λ rank num. do
      prologue 24 2 num
      gaspi 57 Call.barrier
      when (rank == 0) do
        gaspi 60 (
            Call.read_notify (place loc_seg_id 0) 1 (place remote_seg_id 0) (size_of int) 0
              queue_id)
        gaspi 61 (Call.wait queue_id)
      when (rank == 1) do load_int 65 (elem remote_data 0)
      epilogue 68 rank num

-- GASPI/conflict/039-GASPI-conflict-read_notify-write-remote-yes.c
unfoldable pub read_notify_write_remote_yes : TestCase Call
unfolding prologue epilogue
read_notify_write_remote_yes =
    test "GASPI/conflict/039-GASPI-conflict-read_notify-write-remote-yes.c"
      (racy remote_race rma_read rma_write "gaspi_read_notify" 62 "gaspi_write" 69 3) 3
      λ rank num. do
        prologue 25 3 num
        gaspi 58 Call.barrier
        when (rank == 0) do
          gaspi 62 (
              Call.read_notify (place loc_seg_id 0) 1 (place remote_seg_id 0) (size_of int) 0
                queue_id)
          gaspi 63 (Call.wait queue_id)
        when (rank == 2) do
          store_int 67 (elem localbuf 0) 42
          gaspi 69
              (Call.write (place loc_seg_id 0) 1 (place remote_seg_id 0) (size_of int) queue_id)
          gaspi 70 (Call.wait queue_id)
        epilogue 73 rank num

abbrev pub at_notified_tests : List (TestCase Call)
at_notified_tests =
    write_notify_load_remote_yes ∷ write_notify_write_remote_yes ∷ read_notify_load_remote_no
    ∷ read_notify_write_remote_yes ∷ []
