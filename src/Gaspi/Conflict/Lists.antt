-- ===== src/Gaspi/Conflict/Lists.antt =====
-- A list operation and a second use of its local buffer: tests of GASPI/conflict.
use rmarace_bench.Base.{List, [], ◌∷◌, ◌==◌}
use rmarace_bench.Race.Access.{int, size_of}
use rmarace_bench.Race.Label.{local_race, buffer_read, buffer_write, local_load, local_store}
use rmarace_bench.Program.{◌>>◌, when, load_int, store_int, elem}
use rmarace_bench.TestCase.{TestCase, test, racy, quiet}
use rmarace_bench.Gaspi.Call.{place, Call, gaspi}
use rmarace_bench.Gaspi.Boilerplate.{
  loc_seg_id, remote_seg_id, queue_id, localbuf, prologue, epilogue,
}

-- GASPI/conflict/008-GASPI-conflict-write_list-load-local-no.c
unfoldable pub write_list_load_local_no : TestCase Call
unfolding prologue epilogue
write_list_load_local_no =
    test "GASPI/conflict/008-GASPI-conflict-write_list-load-local-no.c" (quiet 2) 2 λ rank num. do
      prologue 24 2 num
      gaspi 57 Call.barrier
      when (rank == 0) do
        gaspi 60 (
            Call.write_list ((place loc_seg_id 0) ∷ []) 1 ((place remote_seg_id 0) ∷ [])
              ((size_of int) ∷ []) queue_id)
        load_int 70 (elem localbuf 0)
        gaspi 71 (Call.wait queue_id)
      epilogue 74 rank num

-- GASPI/conflict/009-GASPI-conflict-write_list-store-local-yes.c
unfoldable pub write_list_store_local_yes : TestCase Call
unfolding prologue epilogue
write_list_store_local_yes =
    test "GASPI/conflict/009-GASPI-conflict-write_list-store-local-yes.c"
      (racy local_race buffer_read local_store "gaspi_write_list" 62 "STORE" 73 2) 2
      λ rank num. do
        prologue 25 2 num
        gaspi 58 Call.barrier
        when (rank == 0) do
          gaspi 62 (
              Call.write_list ((place loc_seg_id 0) ∷ []) 1 ((place remote_seg_id 0) ∷ [])
                ((size_of int) ∷ []) queue_id)
          store_int 73 (elem localbuf 0) 42
          gaspi 74 (Call.wait queue_id)
        epilogue 77 rank num

-- GASPI/conflict/010-GASPI-conflict-read_list-load-local-yes.c
unfoldable pub read_list_load_local_yes : TestCase Call
unfolding prologue epilogue
read_list_load_local_yes =
    test "GASPI/conflict/010-GASPI-conflict-read_list-load-local-yes.c"
      (racy local_race buffer_write local_load "gaspi_read_list" 62 "LOAD" 73 2) 2
      λ rank num. do
        prologue 25 2 num
        gaspi 58 Call.barrier
        when (rank == 0) do
          gaspi 62 (
              Call.read_list ((place loc_seg_id 0) ∷ []) 1 ((place remote_seg_id 0) ∷ [])
                ((size_of int) ∷ []) queue_id)
          load_int 73 (elem localbuf 0)
          gaspi 74 (Call.wait queue_id)
        epilogue 77 rank num

-- GASPI/conflict/011-GASPI-conflict-read_list-store-local-yes.c
unfoldable pub read_list_store_local_yes : TestCase Call
unfolding prologue epilogue
read_list_store_local_yes =
    test "GASPI/conflict/011-GASPI-conflict-read_list-store-local-yes.c"
      (racy local_race buffer_write local_store "gaspi_read_list" 62 "STORE" 73 2) 2
      λ rank num. do
        prologue 25 2 num
        gaspi 58 Call.barrier
        when (rank == 0) do
          gaspi 62 (
              Call.read_list ((place loc_seg_id 0) ∷ []) 1 ((place remote_seg_id 0) ∷ [])
                ((size_of int) ∷ []) queue_id)
          store_int 73 (elem localbuf 0) 42
          gaspi 74 (Call.wait queue_id)
        epilogue 77 rank num

abbrev pub lists_tests : List (TestCase Call)
lists_tests =
    write_list_load_local_no ∷ write_list_store_local_yes ∷ read_list_load_local_yes
    ∷ read_list_store_local_yes ∷ []
