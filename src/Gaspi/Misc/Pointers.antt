-- ===== src/Gaspi/Misc/Pointers.antt =====
-- A local buffer with two names: tests of GASPI/misc.
-- A pointer variable is a value of the model, and a function that writes one yields it; memcpy from
-- one to another copies it.
use rmarace_bench.Base.{List, [], ◌∷◌, ◌==◌}
use rmarace_bench.Race.Access.{int, size_of}
use rmarace_bench.Race.Label.{local_race, buffer_write, local_load}
use rmarace_bench.Program.{Ptr, ◌>>◌, when, load_int, elem}
use rmarace_bench.TestCase.{TestCase, test, racy, quiet}
use rmarace_bench.Gaspi.Call.{place, Call, gaspi}
use rmarace_bench.Gaspi.Boilerplate.{
  loc_seg_id, remote_seg_id, queue_id, localbuf, remote_data, prologue, epilogue,
}

-- GASPI/misc/003-GASPI-misc-write-load-aliasing-local-no.c
unfoldable pub write_load_aliasing_local_no : TestCase Call
unfolding prologue epilogue
write_load_aliasing_local_no =
    test "GASPI/misc/003-GASPI-misc-write-load-aliasing-local-no.c" (quiet 2) 2 λ rank num. do
      let aliasgenerator : Ptr → Ptr = λ x. x
      prologue 26 2 num
      gaspi 59 Call.barrier
      let localbuf_alias = aliasgenerator localbuf
      let remote_data_alias = aliasgenerator remote_data
      when (rank == 0) do
        gaspi 68 (Call.write (place loc_seg_id 0) 1 (place remote_seg_id 0) (size_of int) queue_id)
        load_int 69 (elem localbuf 0)
      epilogue 72 rank num

-- GASPI/misc/004-GASPI-misc-read-load-aliasing-local-yes.c
unfoldable pub read_load_aliasing_local_yes : TestCase Call
unfolding prologue epilogue
read_load_aliasing_local_yes =
    test "GASPI/misc/004-GASPI-misc-read-load-aliasing-local-yes.c"
      (racy local_race buffer_write local_load "gaspi_read" 71 "LOAD" 73 2) 2
      λ rank num. do
        let aliasgenerator : Ptr → Ptr = λ x. x
        prologue 27 2 num
        gaspi 60 Call.barrier
        let localbuf_alias = aliasgenerator localbuf
        let remote_data_alias = aliasgenerator remote_data
        when (rank == 0) do
          gaspi 71 (Call.read (place loc_seg_id 0) 1 (place remote_seg_id 0) (size_of int) queue_id)
          load_int 73 (elem localbuf 0)
        epilogue 76 rank num

-- GASPI/misc/005-GASPI-misc-write-load-retval-local-no.c
unfoldable pub write_load_retval_local_no : TestCase Call
unfolding prologue epilogue
write_load_retval_local_no =
    test "GASPI/misc/005-GASPI-misc-write-load-retval-local-no.c" (quiet 2) 2 λ rank num. do
      let aliasgenerator : Ptr → Ptr = λ x. x
      prologue 26 2 num
      gaspi 59 Call.barrier
      let localbuf_alias = aliasgenerator localbuf
      let remote_data_alias = aliasgenerator remote_data
      when (rank == 0) do
        gaspi 68 (Call.write (place loc_seg_id 0) 1 (place remote_seg_id 0) (size_of int) queue_id)
        load_int 69 (elem localbuf 0)
      epilogue 72 rank num

-- GASPI/misc/006-GASPI-misc-read-load-retval-local-yes.c
unfoldable pub read_load_retval_local_yes : TestCase Call
unfolding prologue epilogue
read_load_retval_local_yes =
    test "GASPI/misc/006-GASPI-misc-read-load-retval-local-yes.c"
      (racy local_race buffer_write local_load "gaspi_read" 71 "LOAD" 73 2) 2
      λ rank num. do
        let aliasgenerator : Ptr → Ptr = λ x. x
        prologue 27 2 num
        gaspi 60 Call.barrier
        let localbuf_alias = aliasgenerator localbuf
        let remote_data_alias = aliasgenerator remote_data
        when (rank == 0) do
          gaspi 71 (Call.read (place loc_seg_id 0) 1 (place remote_seg_id 0) (size_of int) queue_id)
          load_int 73 (elem localbuf 0)
        epilogue 76 rank num

-- GASPI/misc/007-GASPI-misc-write-load-memcpy-local-no.c
unfoldable pub write_load_memcpy_local_no : TestCase Call
unfolding prologue epilogue
write_load_memcpy_local_no =
    test "GASPI/misc/007-GASPI-misc-write-load-memcpy-local-no.c" (quiet 2) 2 λ rank num. do
      prologue 25 2 num
      gaspi 58 Call.barrier
      let localbuf_alias = localbuf
      let remote_data_alias = remote_data
      when (rank == 0) do
        gaspi 67 (Call.write (place loc_seg_id 0) 1 (place remote_seg_id 0) (size_of int) queue_id)
        load_int 68 (elem localbuf 0)
      epilogue 71 rank num

-- GASPI/misc/008-GASPI-misc-read-load-memcpy-local-yes.c
unfoldable pub read_load_memcpy_local_yes : TestCase Call
unfolding prologue epilogue
read_load_memcpy_local_yes =
    test "GASPI/misc/008-GASPI-misc-read-load-memcpy-local-yes.c"
      (racy local_race buffer_write local_load "gaspi_read" 70 "LOAD" 72 2) 2
      λ rank num. do
        prologue 26 2 num
        gaspi 59 Call.barrier
        let localbuf_alias = localbuf
        let remote_data_alias = remote_data
        when (rank == 0) do
          gaspi 70 (Call.read (place loc_seg_id 0) 1 (place remote_seg_id 0) (size_of int) queue_id)
          load_int 72 (elem localbuf 0)
        epilogue 75 rank num

abbrev pub pointers_tests : List (TestCase Call)
pointers_tests =
    write_load_aliasing_local_no ∷ read_load_aliasing_local_yes ∷ write_load_retval_local_no
    ∷ read_load_retval_local_yes ∷ write_load_memcpy_local_no ∷ read_load_memcpy_local_yes ∷ []
