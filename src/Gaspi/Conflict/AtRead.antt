-- ===== src/Gaspi/Conflict/AtRead.antt =====
-- A read and a second access to its target: tests of GASPI/conflict.
use rmarace_bench.Base.{List, [], ◌∷◌, ◌==◌}
use rmarace_bench.Race.Access.{int, size_of}
use rmarace_bench.Race.Label.{remote_race, local_store, rma_atomic_write, rma_read, rma_write}
use rmarace_bench.Program.{◌>>◌, when, load_int, store_int, elem}
use rmarace_bench.TestCase.{TestCase, test, racy, quiet}
use rmarace_bench.Gaspi.Call.{place, Call, gaspi}
use rmarace_bench.Gaspi.Boilerplate.{
  loc_seg_id, remote_seg_id, queue_id, localbuf, remote_data, prologue, epilogue,
}

-- GASPI/conflict/020-GASPI-conflict-read-load-remote-no.c
unfoldable pub read_load_remote_no : TestCase Call
unfolding prologue epilogue
read_load_remote_no =
    test "GASPI/conflict/020-GASPI-conflict-read-load-remote-no.c" (quiet 2) 2 λ rank num. do
      prologue 24 2 num
      gaspi 57 Call.barrier
      when (rank == 0) do
        gaspi 60 (Call.read (place loc_seg_id 0) 1 (place remote_seg_id 0) (size_of int) queue_id)
        gaspi 61 (Call.wait queue_id)
      when (rank == 1) do load_int 65 (elem remote_data 0)
      epilogue 68 rank num

-- GASPI/conflict/021-GASPI-conflict-read-read-remote-no.c
unfoldable pub read_read_remote_no : TestCase Call
unfolding prologue epilogue
read_read_remote_no =
    test "GASPI/conflict/021-GASPI-conflict-read-read-remote-no.c" (quiet 3) 3 λ rank num. do
      prologue 24 3 num
      gaspi 57 Call.barrier
      when (rank == 0) do
        gaspi 60 (Call.read (place loc_seg_id 0) 1 (place remote_seg_id 0) (size_of int) queue_id)
        gaspi 61 (Call.wait queue_id)
      when (rank == 2) do
        store_int 65 (elem localbuf 0) 42
        gaspi 66 (Call.read (place loc_seg_id 0) 1 (place remote_seg_id 0) (size_of int) queue_id)
        gaspi 67 (Call.wait queue_id)
      epilogue 70 rank num

-- GASPI/conflict/022-GASPI-conflict-read-store-remote-yes.c
unfoldable pub read_store_remote_yes : TestCase Call
unfolding prologue epilogue
read_store_remote_yes =
    test "GASPI/conflict/022-GASPI-conflict-read-store-remote-yes.c"
      (racy remote_race rma_read local_store "gaspi_read" 62 "STORE" 68 2) 2
      λ rank num. do
        prologue 25 2 num
        gaspi 58 Call.barrier
        when (rank == 0) do
          gaspi 62 (Call.read (place loc_seg_id 0) 1 (place remote_seg_id 0) (size_of int) queue_id)
          gaspi 63 (Call.wait queue_id)
        when (rank == 1) do store_int 68 (elem remote_data 0) 42
        epilogue 71 rank num

-- GASPI/conflict/023-GASPI-conflict-read-write-remote-yes.c
unfoldable pub read_write_remote_yes : TestCase Call
unfolding prologue epilogue
read_write_remote_yes =
    test "GASPI/conflict/023-GASPI-conflict-read-write-remote-yes.c"
      (racy remote_race rma_read rma_write "gaspi_read" 62 "gaspi_write" 69 3) 3
      λ rank num. do
        prologue 25 3 num
        gaspi 58 Call.barrier
        when (rank == 0) do
          gaspi 62 (Call.read (place loc_seg_id 0) 1 (place remote_seg_id 0) (size_of int) queue_id)
          gaspi 63 (Call.wait queue_id)
        when (rank == 2) do
          store_int 67 (elem localbuf 0) 42
          gaspi 69
              (Call.write (place loc_seg_id 0) 1 (place remote_seg_id 0) (size_of int) queue_id)
          gaspi 70 (Call.wait queue_id)
        epilogue 73 rank num

-- GASPI/conflict/024-GASPI-conflict-read-fetchadd-remote-yes.c
unfoldable pub read_fetchadd_remote_yes : TestCase Call
unfolding prologue epilogue
read_fetchadd_remote_yes =
    test "GASPI/conflict/024-GASPI-conflict-read-fetchadd-remote-yes.c"
      (racy remote_race rma_read rma_atomic_write "gaspi_read" 62 "gaspi_atomic_fetch_add" 69 3) 3
      λ rank num. do
        prologue 25 3 num
        gaspi 58 Call.barrier
        when (rank == 0) do
          gaspi 62 (Call.read (place loc_seg_id 0) 1 (place remote_seg_id 0) (size_of int) queue_id)
          gaspi 63 (Call.wait queue_id)
        when (rank == 2) do
          store_int 67 (elem localbuf 0) 42
          gaspi 69 (Call.atomic_fetch_add (place remote_seg_id 0) 1 1 (elem localbuf 0))
        epilogue 72 rank num

abbrev pub at_read_tests : List (TestCase Call)
at_read_tests =
    read_load_remote_no ∷ read_read_remote_no ∷ read_store_remote_yes ∷ read_write_remote_yes
    ∷ read_fetchadd_remote_yes ∷ []
