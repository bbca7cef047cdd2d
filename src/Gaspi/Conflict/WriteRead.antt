-- ===== src/Gaspi/Conflict/WriteRead.antt =====
-- A write or read and a second use of its local buffer: tests of GASPI/conflict.
use rmarace_bench.Base.{List, [], ◌∷◌, ◌==◌}
use rmarace_bench.Race.Access.{int, size_of}
use rmarace_bench.Race.Label.{local_race, buffer_read, buffer_write, local_load, local_store}
use rmarace_bench.Program.{◌>>◌, when, load_int, store_int, elem}
use rmarace_bench.TestCase.{TestCase, test, racy, quiet}
use rmarace_bench.Gaspi.Call.{place, Call, gaspi}
use rmarace_bench.Gaspi.Boilerplate.{
  loc_seg_id, remote_seg_id, queue_id, localbuf, prologue, epilogue,
}

-- GASPI/conflict/001-GASPI-conflict-write-load-local-no.c
unfoldable pub write_load_local_no : TestCase Call
unfolding prologue epilogue
write_load_local_no =
    test "GASPI/conflict/001-GASPI-conflict-write-load-local-no.c" (quiet 2) 2 λ rank num. do
      prologue 24 2 num
      gaspi 57 Call.barrier
      when (rank == 0) do
        store_int 60 (elem localbuf 0) 1
        gaspi 61 (Call.write (place loc_seg_id 0) 1 (place remote_seg_id 0) (size_of int) queue_id)
        load_int 62 (elem localbuf 0)
        gaspi 63 (Call.wait queue_id)
      epilogue 66 rank num

-- GASPI/conflict/002-GASPI-conflict-write-store-local-yes.c
unfoldable pub write_store_local_yes : TestCase Call
unfolding prologue epilogue
write_store_local_yes =
    test "GASPI/conflict/002-GASPI-conflict-write-store-local-yes.c"
      (racy local_race buffer_read local_store "gaspi_write" 63 "STORE" 65 2) 2
      λ rank num. do
        prologue 25 2 num
        gaspi 58 Call.barrier
        when (rank == 0) do
          store_int 61 (elem localbuf 0) 1
          gaspi 63
              (Call.write (place loc_seg_id 0) 1 (place remote_seg_id 0) (size_of int) queue_id)
          store_int 65 (elem localbuf 0) 42
          gaspi 66 (Call.wait queue_id)
        epilogue 69 rank num

-- GASPI/conflict/003-GASPI-conflict-write-write-local-no.c
unfoldable pub write_write_local_no : TestCase Call
unfolding prologue epilogue
write_write_local_no =
    test "GASPI/conflict/003-GASPI-conflict-write-write-local-no.c" (quiet 2) 2 λ rank num. do
      prologue 24 2 num
      gaspi 57 Call.barrier
      when (rank == 0) do
        store_int 60 (elem localbuf 0) 1
        gaspi 61 (Call.write (place loc_seg_id 0) 1 (place remote_seg_id 0) (size_of int) queue_id)
        gaspi 62 (Call.write (place loc_seg_id 0) 0 (place remote_seg_id 0) (size_of int) queue_id)
        gaspi 63 (Call.wait queue_id)
      epilogue 66 rank num

-- GASPI/conflict/004-GASPI-conflict-read-load-local-yes.c
unfoldable pub read_load_local_yes : TestCase Call
unfolding prologue epilogue
read_load_local_yes =
    test "GASPI/conflict/004-GASPI-conflict-read-load-local-yes.c"
      (racy local_race buffer_write local_load "gaspi_read" 62 "LOAD" 64 2) 2
      λ rank num. do
        prologue 25 2 num
        gaspi 58 Call.barrier
        when (rank == 0) do
          gaspi 62 (Call.read (place loc_seg_id 0) 1 (place remote_seg_id 0) (size_of int) queue_id)
          load_int 64 (elem localbuf 0)
          gaspi 65 (Call.wait queue_id)
        epilogue 68 rank num

-- GASPI/conflict/005-GASPI-conflict-read-store-local-yes.c
unfoldable pub read_store_local_yes : TestCase Call
unfolding prologue epilogue
read_store_local_yes =
    test "GASPI/conflict/005-GASPI-conflict-read-store-local-yes.c"
      (racy local_race buffer_write local_store "gaspi_read" 62 "STORE" 64 2) 2
      λ rank num. do
        prologue 25 2 num
        gaspi 58 Call.barrier
        when (rank == 0) do
          gaspi 62 (Call.read (place loc_seg_id 0) 1 (place remote_seg_id 0) (size_of int) queue_id)
          store_int 64 (elem localbuf 0) 42
          gaspi 65 (Call.wait queue_id)
        epilogue 68 rank num

-- GASPI/conflict/006-GASPI-conflict-read-write-local-yes.c
unfoldable pub read_write_local_yes : TestCase Call
unfolding prologue epilogue
read_write_local_yes =
    test "GASPI/conflict/006-GASPI-conflict-read-write-local-yes.c"
      (racy local_race buffer_write buffer_read "gaspi_read" 63 "gaspi_write" 65 2) 2
      λ rank num. do
        prologue 25 2 num
        gaspi 58 Call.barrier
        when (rank == 0) do
          store_int 61 (elem localbuf 0) 1
          gaspi 63 (Call.read (place loc_seg_id 0) 1 (place remote_seg_id 0) (size_of int) queue_id)
          gaspi 65
              (Call.write (place loc_seg_id 0) 1 (place remote_seg_id 0) (size_of int) queue_id)
          gaspi 66 (Call.wait queue_id)
        epilogue 69 rank num

-- GASPI/conflict/007-GASPI-conflict-read-read-local-yes.c
unfoldable pub read_read_local_yes : TestCase Call
unfolding prologue epilogue
read_read_local_yes =
    test "GASPI/conflict/007-GASPI-conflict-read-read-local-yes.c"
      (racy local_race buffer_write buffer_write "gaspi_read" 62 "gaspi_read" 64 2) 2
      λ rank num. do
        prologue 25 2 num
        gaspi 58 Call.barrier
        when (rank == 0) do
          gaspi 62 (Call.read (place loc_seg_id 0) 1 (place remote_seg_id 0) (size_of int) queue_id)
          gaspi 64 (Call.read (place loc_seg_id 0) 1 (place remote_seg_id 0) (size_of int) queue_id)
          gaspi 65 (Call.wait queue_id)
        epilogue 68 rank num

abbrev pub write_read_tests : List (TestCase Call)
write_read_tests =
    write_load_local_no ∷ write_store_local_yes ∷ write_write_local_no ∷ read_load_local_yes
    ∷ read_store_local_yes ∷ read_write_local_yes ∷ read_read_local_yes ∷ []
