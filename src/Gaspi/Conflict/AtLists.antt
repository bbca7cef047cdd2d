-- ===== src/Gaspi/Conflict/AtLists.antt =====
-- A list operation and a second access to its target: tests of GASPI/conflict.
use rmarace_bench.Base.{List, [], ◌∷◌, ◌==◌}
use rmarace_bench.Race.Access.{int, size_of}
use rmarace_bench.Race.Label.{remote_race, local_load, rma_read, rma_write}
use rmarace_bench.Program.{◌>>◌, when, load_int, store_int, elem}
use rmarace_bench.TestCase.{TestCase, test, racy, quiet}
use rmarace_bench.Gaspi.Call.{place, Call, gaspi}
use rmarace_bench.Gaspi.Boilerplate.{
  loc_seg_id, remote_seg_id, queue_id, localbuf, remote_data, prologue, epilogue,
}

-- GASPI/conflict/032-GASPI-conflict-write_list-load-remote-yes.c
unfoldable pub write_list_load_remote_yes : TestCase Call
unfolding prologue epilogue
write_list_load_remote_yes =
    test "GASPI/conflict/032-GASPI-conflict-write_list-load-remote-yes.c"
      (racy remote_race rma_write local_load "gaspi_write_list" 63 "LOAD" 78 2) 2
      λ rank num. do
        prologue 25 2 num
        gaspi 58 Call.barrier
        when (rank == 0) do
          store_int 61 (elem localbuf 0) 1
          gaspi 63 (
              Call.write_list ((place loc_seg_id 0) ∷ []) 1 ((place remote_seg_id 0) ∷ [])
                ((size_of int) ∷ []) queue_id)
          gaspi 73 (Call.wait queue_id)
        when (rank == 1) do load_int 78 (elem remote_data 0)
        epilogue 81 rank num

-- GASPI/conflict/033-GASPI-conflict-write_list-write-remote-yes.c
unfoldable pub write_list_write_remote_yes : TestCase Call
unfolding prologue epilogue
write_list_write_remote_yes =
    test "GASPI/conflict/033-GASPI-conflict-write_list-write-remote-yes.c"
      (racy remote_race rma_write rma_write "gaspi_write_list" 63 "gaspi_write" 79 3) 3
      λ rank num. do
        prologue 25 3 num
        gaspi 58 Call.barrier
        when (rank == 0) do
          store_int 61 (elem localbuf 0) 1
          gaspi 63 (
              Call.write_list ((place loc_seg_id 0) ∷ []) 1 ((place remote_seg_id 0) ∷ [])
                ((size_of int) ∷ []) queue_id)
          gaspi 73 (Call.wait queue_id)
        when (rank == 2) do
          store_int 77 (elem localbuf 0) 42
          gaspi 79
              (Call.write (place loc_seg_id 0) 1 (place remote_seg_id 0) (size_of int) queue_id)
          gaspi 80 (Call.wait queue_id)
        epilogue 83 rank num

-- GASPI/conflict/034-GASPI-conflict-read_list-load-remote-no.c
unfoldable pub read_list_load_remote_no : TestCase Call
unfolding prologue epilogue
read_list_load_remote_no =
    test "GASPI/conflict/034-GASPI-conflict-read_list-load-remote-no.c" (quiet 2) 2 λ rank num. do
      prologue 24 2 num
      gaspi 57 Call.barrier
      when (rank == 0) do
        gaspi 60 (
            Call.read_list ((place loc_seg_id 0) ∷ []) 1 ((place remote_seg_id 0) ∷ [])
              ((size_of int) ∷ []) queue_id)
        gaspi 70 (Call.wait queue_id)
      when (rank == 1) do load_int 74 (elem remote_data 0)
      epilogue 77 rank num

-- GASPI/conflict/035-GASPI-conflict-read_list-write-remote-yes.c
unfoldable pub read_list_write_remote_yes : TestCase Call
unfolding prologue epilogue
read_list_write_remote_yes =
    test "GASPI/conflict/035-GASPI-conflict-read_list-write-remote-yes.c"
      (racy remote_race rma_read rma_write "gaspi_read_list" 62 "gaspi_write" 78 3) 3
      λ rank num. do
        prologue 25 3 num
        gaspi 58 Call.barrier
        when (rank == 0) do
          gaspi 62 (
              Call.read_list ((place loc_seg_id 0) ∷ []) 1 ((place remote_seg_id 0) ∷ [])
                ((size_of int) ∷ []) queue_id)
          gaspi 72 (Call.wait queue_id)
        when (rank == 2) do
          store_int 76 (elem localbuf 0) 42
          gaspi 78
              (Call.write (place loc_seg_id 0) 1 (place remote_seg_id 0) (size_of int) queue_id)
          gaspi 79 (Call.wait queue_id)
        epilogue 82 rank num

abbrev pub at_lists_tests : List (TestCase Call)
at_lists_tests =
    write_list_load_remote_yes ∷ write_list_write_remote_yes ∷ read_list_load_remote_no
    ∷ read_list_write_remote_yes ∷ []
