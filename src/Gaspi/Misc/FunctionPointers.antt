-- ===== src/Gaspi/Misc/FunctionPointers.antt =====
-- A target with two names, and function pointers: tests of GASPI/misc.
-- A pointer variable is a value of the model, and a function that writes one yields it; memcpy from
-- one to another copies it.
use rmarace_bench.Base.{ℕ, String, if◌then◌else◌, List, [], ◌∷◌, not, ◌==◌}
use rmarace_bench.Race.Access.{int, size_of}
use rmarace_bench.Race.Label.{remote_race, local_store, rma_read}
use rmarace_bench.Program.{Ptr, Run, ◌>>◌, when, load_int, store_int, elem}
use rmarace_bench.TestCase.{TestCase, test, racy, quiet}
use rmarace_bench.Gaspi.Call.{place, Call, gaspi}
use rmarace_bench.Gaspi.Boilerplate.{
  loc_seg_id, remote_seg_id, queue_id, localbuf, remote_data, prologue, epilogue,
}

-- GASPI/misc/011-GASPI-misc-read-load-funcpointer-remote-no.c
unfoldable pub read_load_funcpointer_remote_no : TestCase Call
unfolding prologue epilogue
read_load_funcpointer_remote_no =
    test "GASPI/misc/011-GASPI-misc-read-load-funcpointer-remote-no.c" (quiet 2) 2 λ rank num. do
      let rank0 : String → String → ℕ → Ptr → Ptr → Run Call (Unit {0}) =
          λ loc_seg_id remote_seg_id queue_id localbuf remote_data.
            gaspi 30
              (Call.read (place loc_seg_id 0) 1 (place remote_seg_id 0) (size_of int) queue_id)
      let rank1 : String → String → ℕ → Ptr → Ptr → Run Call (Unit {0}) =
          λ loc_seg_id remote_seg_id queue_id localbuf remote_data. load_int 40 (elem remote_data 0)
      prologue 45 2 num
      gaspi 78 Call.barrier
      let rankfunc : String → String → ℕ → Ptr → Ptr → Run Call (Unit {0}) =
          if rank == 0 then rank0 else rank1
      rankfunc loc_seg_id remote_seg_id queue_id localbuf remote_data
      epilogue 94 rank num

-- GASPI/misc/012-GASPI-misc-read-store-funcpointer-remote-yes.c
unfoldable pub read_store_funcpointer_remote_yes : TestCase Call
unfolding prologue epilogue
read_store_funcpointer_remote_yes =
    test "GASPI/misc/012-GASPI-misc-read-store-funcpointer-remote-yes.c"
      (racy remote_race rma_read local_store "gaspi_read" 33 "STORE" 44 2) 2
      λ rank num. do
        let rank0 : String → String → ℕ → Ptr → Ptr → Run Call (Unit {0}) =
            λ loc_seg_id remote_seg_id queue_id localbuf remote_data.
              gaspi 33
                (Call.read (place loc_seg_id 0) 1 (place remote_seg_id 0) (size_of int) queue_id)
        let rank1 : String → String → ℕ → Ptr → Ptr → Run Call (Unit {0}) =
            λ loc_seg_id remote_seg_id queue_id localbuf remote_data.
              store_int 44 (elem remote_data 0) 42
        prologue 49 2 num
        gaspi 82 Call.barrier
        let rankfunc : String → String → ℕ → Ptr → Ptr → Run Call (Unit {0}) =
            if rank == 0 then rank0 else rank1
        rankfunc loc_seg_id remote_seg_id queue_id localbuf remote_data
        epilogue 98 rank num

-- GASPI/misc/013-GASPI-misc-read-load-aliasing-remote-no.c
unfoldable pub read_load_aliasing_remote_no : TestCase Call
unfolding prologue epilogue
read_load_aliasing_remote_no =
    test "GASPI/misc/013-GASPI-misc-read-load-aliasing-remote-no.c" (quiet 2) 2 λ rank num. do
      let aliasgenerator : Ptr → Ptr = λ x. x
      prologue 26 2 num
      gaspi 59 Call.barrier
      let localbuf_alias = aliasgenerator localbuf
      let remote_data_alias = aliasgenerator remote_data
      when (rank == 0) do
        gaspi 68 (Call.read (place loc_seg_id 0) 1 (place remote_seg_id 0) (size_of int) queue_id)
      when (not (rank == 0)) do load_int 70 (elem remote_data 0)
      epilogue 73 rank num

-- GASPI/misc/014-GASPI-misc-read-store-aliasing-remote-yes.c
unfoldable pub read_store_aliasing_remote_yes : TestCase Call
unfolding prologue epilogue
read_store_aliasing_remote_yes =
    test "GASPI/misc/014-GASPI-misc-read-store-aliasing-remote-yes.c"
      (racy remote_race rma_read local_store "gaspi_read" 71 "STORE" 74 2) 2
      λ rank num. do
        let aliasgenerator : Ptr → Ptr = λ x. x
        prologue 27 2 num
        gaspi 60 Call.barrier
        let localbuf_alias = aliasgenerator localbuf
        let remote_data_alias = aliasgenerator remote_data
        when (rank == 0) do
          gaspi 71 (Call.read (place loc_seg_id 0) 1 (place remote_seg_id 0) (size_of int) queue_id)
        when (not (rank == 0)) do store_int 74 (elem remote_data 0) 42
        epilogue 77 rank num

-- GASPI/misc/015-GASPI-misc-read-load-retval-remote-no.c
unfoldable pub read_load_retval_remote_no : TestCase Call
unfolding prologue epilogue
read_load_retval_remote_no =
    test "GASPI/misc/015-GASPI-misc-read-load-retval-remote-no.c" (quiet 2) 2 λ rank num. do
      let aliasgenerator : Ptr → Ptr = λ x. x
      prologue 26 2 num
      gaspi 59 Call.barrier
      let localbuf_alias = aliasgenerator localbuf
      let remote_data_alias = aliasgenerator remote_data
      when (rank == 0) do
        gaspi 68 (Call.read (place loc_seg_id 0) 1 (place remote_seg_id 0) (size_of int) queue_id)
      when (not (rank == 0)) do load_int 70 (elem remote_data 0)
      epilogue 73 rank num

-- GASPI/misc/016-GASPI-misc-read-store-retval-remote-yes.c
unfoldable pub read_store_retval_remote_yes : TestCase Call
unfolding prologue epilogue
read_store_retval_remote_yes =
    test "GASPI/misc/016-GASPI-misc-read-store-retval-remote-yes.c"
      (racy remote_race rma_read local_store "gaspi_read" 71 "STORE" 74 2) 2
      λ rank num. do
        let aliasgenerator : Ptr → Ptr = λ x. x
        prologue 27 2 num
        gaspi 60 Call.barrier
        let localbuf_alias = aliasgenerator localbuf
        let remote_data_alias = aliasgenerator remote_data
        when (rank == 0) do
          gaspi 71 (Call.read (place loc_seg_id 0) 1 (place remote_seg_id 0) (size_of int) queue_id)
        when (not (rank == 0)) do store_int 74 (elem remote_data 0) 42
        epilogue 77 rank num

-- GASPI/misc/017-GASPI-misc-read-load-memcpy-remote-no.c
unfoldable pub read_load_memcpy_remote_no : TestCase Call
unfolding prologue epilogue
read_load_memcpy_remote_no =
    test "GASPI/misc/017-GASPI-misc-read-load-memcpy-remote-no.c" (quiet 2) 2 λ rank num. do
      prologue 25 2 num
      gaspi 58 Call.barrier
      let localbuf_alias = localbuf
      let remote_data_alias = remote_data
      when (rank == 0) do
        gaspi 67 (Call.read (place loc_seg_id 0) 1 (place remote_seg_id 0) (size_of int) queue_id)
      when (not (rank == 0)) do load_int 69 (elem remote_data 0)
      epilogue 72 rank num

-- GASPI/misc/018-GASPI-misc-read-store-memcpy-remote-yes.c
unfoldable pub read_store_memcpy_remote_yes : TestCase Call
unfolding prologue epilogue
read_store_memcpy_remote_yes =
    test "GASPI/misc/018-GASPI-misc-read-store-memcpy-remote-yes.c"
      (racy remote_race rma_read local_store "gaspi_read" 70 "STORE" 73 2) 2
      λ rank num. do
        prologue 26 2 num
        gaspi 59 Call.barrier
        let localbuf_alias = localbuf
        let remote_data_alias = remote_data
        when (rank == 0) do
          gaspi 70 (Call.read (place loc_seg_id 0) 1 (place remote_seg_id 0) (size_of int) queue_id)
        when (not (rank == 0)) do store_int 73 (elem remote_data 0) 42
        epilogue 76 rank num

abbrev pub function_pointers_tests : List (TestCase Call)
function_pointers_tests =
    read_load_funcpointer_remote_no ∷ read_store_funcpointer_remote_yes
    ∷ read_load_aliasing_remote_no ∷ read_store_aliasing_remote_yes ∷ read_load_retval_remote_no
    ∷ read_store_retval_remote_yes ∷ read_load_memcpy_remote_no ∷ read_store_memcpy_remote_yes ∷ []
