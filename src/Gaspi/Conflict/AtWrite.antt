-- ===== src/Gaspi/Conflict/AtWrite.antt =====
-- A write or fetch-add and a second access to its target: tests of GASPI/conflict.
use rmarace_bench.Base.{List, [], ◌∷◌, ◌==◌}
use rmarace_bench.Race.Access.{int, size_of}
use rmarace_bench.Race.Label.{remote_race, local_load, local_store, rma_atomic_write, rma_write}
use rmarace_bench.Program.{◌>>◌, when, load_int, store_int, elem}
use rmarace_bench.TestCase.{TestCase, test, racy, quiet}
use rmarace_bench.Gaspi.Call.{place, Call, gaspi}
use rmarace_bench.Gaspi.Boilerplate.{
  loc_seg_id, remote_seg_id, queue_id, localbuf, remote_data, prologue, epilogue,
}

-- GASPI/conflict/025-GASPI-conflict-write-load-remote-yes.c
unfoldable pub write_load_remote_yes : TestCase Call
unfolding prologue epilogue
write_load_remote_yes =
    test "GASPI/conflict/025-GASPI-conflict-write-load-remote-yes.c"
      (racy remote_race rma_write local_load "gaspi_write" 63 "LOAD" 69 2) 2
      λ rank num. do
        prologue 25 2 num
        gaspi 58 Call.barrier
        when (rank == 0) do
          store_int 61 (elem localbuf 0) 1
          gaspi 63
              (Call.write (place loc_seg_id 0) 1 (place remote_seg_id 0) (size_of int) queue_id)
          gaspi 64 (Call.wait queue_id)
        when (rank == 1) do load_int 69 (elem remote_data 0)
        epilogue 72 rank num

-- GASPI/conflict/026-GASPI-conflict-write-store-remote-yes.c
unfoldable pub write_store_remote_yes : TestCase Call
unfolding prologue epilogue
write_store_remote_yes =
    test "GASPI/conflict/026-GASPI-conflict-write-store-remote-yes.c"
      (racy remote_race rma_write local_store "gaspi_write" 63 "STORE" 69 2) 2
      λ rank num. do
        prologue 25 2 num
        gaspi 58 Call.barrier
        when (rank == 0) do
          store_int 61 (elem localbuf 0) 1
          gaspi 63
              (Call.write (place loc_seg_id 0) 1 (place remote_seg_id 0) (size_of int) queue_id)
          gaspi 64 (Call.wait queue_id)
        when (rank == 1) do store_int 69 (elem remote_data 0) 42
        epilogue 72 rank num

-- GASPI/conflict/027-GASPI-conflict-write-write-remote-yes.c
unfoldable pub write_write_remote_yes : TestCase Call
unfolding prologue epilogue
write_write_remote_yes =
    test "GASPI/conflict/027-GASPI-conflict-write-write-remote-yes.c"
      (racy remote_race rma_write rma_write "gaspi_write" 63 "gaspi_write" 70 3) 3
      λ rank num. do
        prologue 25 3 num
        gaspi 58 Call.barrier
        when (rank == 0) do
          store_int 61 (elem localbuf 0) 1
          gaspi 63
              (Call.write (place loc_seg_id 0) 1 (place remote_seg_id 0) (size_of int) queue_id)
          gaspi 64 (Call.wait queue_id)
        when (rank == 2) do
          store_int 68 (elem localbuf 0) 42
          gaspi 70
              (Call.write (place loc_seg_id 0) 1 (place remote_seg_id 0) (size_of int) queue_id)
          gaspi 71 (Call.wait queue_id)
        epilogue 74 rank num

-- GASPI/conflict/028-GASPI-conflict-write-fetchadd-remote-yes.c
unfoldable pub write_fetchadd_remote_yes : TestCase Call
unfolding prologue epilogue
write_fetchadd_remote_yes =
    test "GASPI/conflict/028-GASPI-conflict-write-fetchadd-remote-yes.c"
      (racy remote_race rma_write rma_atomic_write "gaspi_write" 63 "gaspi_atomic_fetch_add" 70 3) 3
      λ rank num. do
        prologue 25 3 num
        gaspi 58 Call.barrier
        when (rank == 0) do
          store_int 61 (elem localbuf 0) 1
          gaspi 63
              (Call.write (place loc_seg_id 0) 1 (place remote_seg_id 0) (size_of int) queue_id)
          gaspi 64 (Call.wait queue_id)
        when (rank == 2) do
          store_int 68 (elem localbuf 0) 42
          gaspi 70 (Call.atomic_fetch_add (place remote_seg_id 0) 1 1 (elem localbuf 0))
        epilogue 73 rank num

-- GASPI/conflict/029-GASPI-conflict-fetchadd-load-remote-yes.c
unfoldable pub fetchadd_load_remote_yes : TestCase Call
unfolding prologue epilogue
fetchadd_load_remote_yes =
    test "GASPI/conflict/029-GASPI-conflict-fetchadd-load-remote-yes.c"
      (racy remote_race rma_atomic_write local_load "gaspi_atomic_fetch_add" 62 "LOAD" 68 2) 2
      λ rank num. do
        prologue 25 2 num
        gaspi 58 Call.barrier
        when (rank == 0) do
          gaspi 62 (Call.atomic_fetch_add (place remote_seg_id 0) 1 1 (elem localbuf 0))
          gaspi 63 (Call.wait queue_id)
        when (rank == 1) do load_int 68 (elem remote_data 0)
        epilogue 71 rank num

-- GASPI/conflict/030-GASPI-conflict-fetchadd-store-remote-yes.c
unfoldable pub fetchadd_store_remote_yes : TestCase Call
unfolding prologue epilogue
fetchadd_store_remote_yes =
    test "GASPI/conflict/030-GASPI-conflict-fetchadd-store-remote-yes.c"
      (racy remote_race rma_atomic_write local_store "gaspi_atomic_fetch_add" 62 "STORE" 68 2) 2
      λ rank num. do
        prologue 25 2 num
        gaspi 58 Call.barrier
        when (rank == 0) do
          gaspi 62 (Call.atomic_fetch_add (place remote_seg_id 0) 1 1 (elem localbuf 0))
          gaspi 63 (Call.wait queue_id)
        when (rank == 1) do store_int 68 (elem remote_data 0) 42
        epilogue 71 rank num

-- GASPI/conflict/031-GASPI-conflict-fetchadd-fetchadd-remote-no.c
unfoldable pub fetchadd_fetchadd_remote_no : TestCase Call
unfolding prologue epilogue
fetchadd_fetchadd_remote_no =
    test "GASPI/conflict/031-GASPI-conflict-fetchadd-fetchadd-remote-no.c" (quiet 3) 3 λ rank num.
      do
        prologue 24 3 num
        gaspi 57 Call.barrier
        when (rank == 0) do
          gaspi 60 (Call.atomic_fetch_add (place remote_seg_id 0) 1 1 (elem localbuf 0))
          gaspi 61 (Call.wait queue_id)
        when (rank == 2) do
          store_int 65 (elem localbuf 0) 42
          gaspi 66 (Call.atomic_fetch_add (place remote_seg_id 0) 1 1 (elem localbuf 0))
        epilogue 69 rank num

abbrev pub at_write_tests : List (TestCase Call)
at_write_tests =
    write_load_remote_yes ∷ write_store_remote_yes ∷ write_write_remote_yes
    ∷ write_fetchadd_remote_yes ∷ fetchadd_load_remote_yes ∷ fetchadd_store_remote_yes
    ∷ fetchadd_fetchadd_remote_no ∷ []
