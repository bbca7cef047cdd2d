-- ===== src/Gaspi/Conflict/Notified.antt =====
-- An operation with notification and a second use of its local buffer: tests of GASPI/conflict.
use rmarace_bench.Base.{List, [], ◌∷◌, ◌==◌}
use rmarace_bench.Race.Access.{int, size_of}
use rmarace_bench.Race.Label.{local_race, buffer_read, buffer_write, local_load, local_store}
use rmarace_bench.Program.{◌>>◌, when, load_int, store_int, elem}
use rmarace_bench.TestCase.{TestCase, test, racy, quiet}
use rmarace_bench.Gaspi.Call.{place, Call, gaspi}
use rmarace_bench.Gaspi.Boilerplate.{
  loc_seg_id, remote_seg_id, queue_id, localbuf, prologue, epilogue,
}

-- GASPI/conflict/012-GASPI-conflict-write_notify-load-local-no.c
unfoldable pub write_notify_load_local_no : TestCase Call
unfolding prologue epilogue
write_notify_load_local_no =
    test "GASPI/conflict/012-GASPI-conflict-write_notify-load-local-no.c" (quiet 2) 2 λ rank num. do
      prologue 24 2 num
      gaspi 57 Call.barrier
      when (rank == 0) do
        gaspi 60 (
            Call.write_notify (place loc_seg_id 0) 1 (place remote_seg_id 0) (size_of int) 0 1
              queue_id)
        load_int 61 (elem localbuf 0)
        gaspi 62 (Call.wait queue_id)
      epilogue 65 rank num

-- GASPI/conflict/013-GASPI-conflict-write_notify-store-local-yes.c
unfoldable pub write_notify_store_local_yes : TestCase Call
unfolding prologue epilogue
write_notify_store_local_yes =
    test "GASPI/conflict/013-GASPI-conflict-write_notify-store-local-yes.c"
      (racy local_race buffer_read local_store "gaspi_write_notify" 62 "STORE" 64 2) 2
      λ rank num. do
        prologue 25 2 num
        gaspi 58 Call.barrier
        when (rank == 0) do
          gaspi 62 (
              Call.write_notify (place loc_seg_id 0) 1 (place remote_seg_id 0) (size_of int) 0 1
                queue_id)
          store_int 64 (elem localbuf 0) 42
          gaspi 65 (Call.wait queue_id)
        epilogue 68 rank num

-- GASPI/conflict/014-GASPI-conflict-read_notify-load-local-yes.c
unfoldable pub read_notify_load_local_yes : TestCase Call
unfolding prologue epilogue
read_notify_load_local_yes =
    test "GASPI/conflict/014-GASPI-conflict-read_notify-load-local-yes.c"
      (racy local_race buffer_write local_load "gaspi_read_notify" 62 "LOAD" 64 2) 2
      λ rank num. do
        prologue 25 2 num
        gaspi 58 Call.barrier
        when (rank == 0) do
          gaspi 62 (
              Call.read_notify (place loc_seg_id 0) 1 (place remote_seg_id 0) (size_of int) 0
                queue_id)
          load_int 64 (elem localbuf 0)
          gaspi 65 (Call.wait queue_id)
        epilogue 68 rank num

-- GASPI/conflict/015-GASPI-conflict-read_notify-store-local-yes.c
unfoldable pub read_notify_store_local_yes : TestCase Call
unfolding prologue epilogue
read_notify_store_local_yes =
    test "GASPI/conflict/015-GASPI-conflict-read_notify-store-local-yes.c"
      (racy local_race buffer_write local_store "gaspi_read_notify" 62 "STORE" 64 2) 2
      λ rank num. do
        prologue 25 2 num
        gaspi 58 Call.barrier
        when (rank == 0) do
          gaspi 62 (
              Call.read_notify (place loc_seg_id 0) 1 (place remote_seg_id 0) (size_of int) 0
                queue_id)
          store_int 64 (elem localbuf 0) 42
          gaspi 65 (Call.wait queue_id)
        epilogue 68 rank num

abbrev pub notified_tests : List (TestCase Call)
notified_tests =
    write_notify_load_local_no ∷ write_notify_store_local_yes ∷ read_notify_load_local_yes
    ∷ read_notify_store_local_yes ∷ []
