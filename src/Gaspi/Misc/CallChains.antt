-- ===== src/Gaspi/Misc/CallChains.antt =====
-- The operation in a chain of calls: tests of GASPI/misc.
-- A pointer variable is a value of the model.
use rmarace_bench.Base.{ℕ, String, List, [], ◌∷◌, not, ◌==◌}
use rmarace_bench.Race.Access.{int, size_of}
use rmarace_bench.Race.Label.{
  local_race, remote_race, buffer_write, local_load, local_store, rma_read,
}
use rmarace_bench.Program.{Ptr, Run, ◌>>◌, when, load_int, store_int, elem}
use rmarace_bench.TestCase.{TestCase, test, racy, quiet}
use rmarace_bench.Gaspi.Call.{place, Call, gaspi}
use rmarace_bench.Gaspi.Boilerplate.{
  loc_seg_id, remote_seg_id, queue_id, localbuf, remote_data, prologue, epilogue,
}

-- GASPI/misc/001-GASPI-misc-write-load-deep-nesting-local-no.c
unfoldable pub write_load_deep_nesting_local_no : TestCase Call
unfolding prologue epilogue
write_load_deep_nesting_local_no =
    test "GASPI/misc/001-GASPI-misc-write-load-deep-nesting-local-no.c" (quiet 2) 2 λ rank num. do
      let deeeeeeeeep : Ptr → Run Call (Unit {0}) = λ localbuf. load_int 22 (elem localbuf 0)
      let deeeeeeeep : Ptr → Run Call (Unit {0}) = λ localbuf. deeeeeeeeep localbuf
      let deeeeeeep : Ptr → Run Call (Unit {0}) = λ localbuf. deeeeeeeep localbuf
      let deeeeeep : Ptr → Run Call (Unit {0}) = λ localbuf. deeeeeeep localbuf
      let deeeeep : Ptr → Run Call (Unit {0}) = λ localbuf. deeeeeep localbuf
      let deeeep : Ptr → Run Call (Unit {0}) = λ localbuf. deeeeep localbuf
      let deeep : Ptr → Run Call (Unit {0}) = λ localbuf. deeeep localbuf
      let deep : Ptr → Run Call (Unit {0}) = λ localbuf. deeep localbuf
      let rank0 : String → String → ℕ → Ptr → Ptr → Run Call (Unit {0}) =
          λ loc_seg_id remote_seg_id queue_id localbuf remote_data.
            deep localbuf
            >> gaspi 40
                (Call.write (place loc_seg_id 0) 1 (place remote_seg_id 0) (size_of int) queue_id)
      prologue 45 2 num
      gaspi 78 Call.barrier
      when (rank == 0) do rank0 loc_seg_id remote_seg_id queue_id localbuf remote_data
      epilogue 84 rank num

-- GASPI/misc/002-GASPI-misc-read-load-deep-nesting-local-yes.c
unfoldable pub read_load_deep_nesting_local_yes : TestCase Call
unfolding prologue epilogue
read_load_deep_nesting_local_yes =
    test "GASPI/misc/002-GASPI-misc-read-load-deep-nesting-local-yes.c"
      (racy local_race buffer_write local_load "gaspi_read" 27 "LOAD" 47 2) 2
      λ rank num. do
        let deeeeeeeeep : Ptr → Run Call (Unit {0}) = λ localbuf. load_int 27 (elem localbuf 0)
        let deeeeeeeep : Ptr → Run Call (Unit {0}) = λ localbuf. deeeeeeeeep localbuf
        let deeeeeeep : Ptr → Run Call (Unit {0}) = λ localbuf. deeeeeeeep localbuf
        let deeeeeep : Ptr → Run Call (Unit {0}) = λ localbuf. deeeeeeep localbuf
        let deeeeep : Ptr → Run Call (Unit {0}) = λ localbuf. deeeeeep localbuf
        let deeeep : Ptr → Run Call (Unit {0}) = λ localbuf. deeeeep localbuf
        let deeep : Ptr → Run Call (Unit {0}) = λ localbuf. deeeep localbuf
        let deep : Ptr → Run Call (Unit {0}) = λ localbuf. deeep localbuf
        let rank0 : String → String → ℕ → Ptr → Ptr → Run Call (Unit {0}) =
            λ loc_seg_id remote_seg_id queue_id localbuf remote_data.
              deep localbuf
              >> gaspi 47
                  (Call.read (place loc_seg_id 0) 1 (place remote_seg_id 0) (size_of int) queue_id)
        prologue 52 2 num
        gaspi 85 Call.barrier
        when (rank == 0) do rank0 loc_seg_id remote_seg_id queue_id localbuf remote_data
        epilogue 91 rank num

-- GASPI/misc/009-GASPI-misc-read-load-deep-nesting-remote-no.c
unfoldable pub read_load_deep_nesting_remote_no : TestCase Call
unfolding prologue epilogue
read_load_deep_nesting_remote_no =
    test "GASPI/misc/009-GASPI-misc-read-load-deep-nesting-remote-no.c" (quiet 2) 2 λ rank num. do
      let deeeeeeeeep : Ptr → Run Call (Unit {0}) = λ remote_data. load_int 22 (elem remote_data 0)
      let deeeeeeeep : Ptr → Run Call (Unit {0}) = λ remote_data. deeeeeeeeep remote_data
      let deeeeeeep : Ptr → Run Call (Unit {0}) = λ remote_data. deeeeeeeep remote_data
      let deeeeeep : Ptr → Run Call (Unit {0}) = λ remote_data. deeeeeeep remote_data
      let deeeeep : Ptr → Run Call (Unit {0}) = λ remote_data. deeeeeep remote_data
      let deeeep : Ptr → Run Call (Unit {0}) = λ remote_data. deeeeep remote_data
      let deeep : Ptr → Run Call (Unit {0}) = λ remote_data. deeeep remote_data
      let deep : Ptr → Run Call (Unit {0}) = λ remote_data. deeep remote_data
      let rank0 : String → String → ℕ → Ptr → Ptr → Run Call (Unit {0}) =
          λ loc_seg_id remote_seg_id queue_id localbuf remote_data. deep remote_data
      prologue 44 2 num
      gaspi 77 Call.barrier
      when (rank == 0) do rank0 loc_seg_id remote_seg_id queue_id localbuf remote_data
      when (not (rank == 0)) do
        gaspi 82 (Call.read (place loc_seg_id 0) 1 (place remote_seg_id 0) (size_of int) queue_id)
      epilogue 85 rank num

-- GASPI/misc/010-GASPI-misc-read-store-deep-nesting-remote-yes.c
unfoldable pub read_store_deep_nesting_remote_yes : TestCase Call
unfolding prologue epilogue
read_store_deep_nesting_remote_yes =
    test "GASPI/misc/010-GASPI-misc-read-store-deep-nesting-remote-yes.c"
      (racy remote_race rma_read local_store "gaspi_read" 27 "STORE" 89 2) 2
      λ rank num. do
        let deeeeeeeeep : Ptr → Run Call (Unit {0}) =
            λ remote_data. store_int 27 (elem remote_data 0) 42
        let deeeeeeeep : Ptr → Run Call (Unit {0}) = λ remote_data. deeeeeeeeep remote_data
        let deeeeeeep : Ptr → Run Call (Unit {0}) = λ remote_data. deeeeeeeep remote_data
        let deeeeeep : Ptr → Run Call (Unit {0}) = λ remote_data. deeeeeeep remote_data
        let deeeeep : Ptr → Run Call (Unit {0}) = λ remote_data. deeeeeep remote_data
        let deeeep : Ptr → Run Call (Unit {0}) = λ remote_data. deeeeep remote_data
        let deeep : Ptr → Run Call (Unit {0}) = λ remote_data. deeeep remote_data
        let deep : Ptr → Run Call (Unit {0}) = λ remote_data. deeep remote_data
        let rank0 : String → String → ℕ → Ptr → Ptr → Run Call (Unit {0}) =
            λ loc_seg_id remote_seg_id queue_id localbuf remote_data. deep remote_data
        prologue 50 2 num
        gaspi 83 Call.barrier
        when (rank == 0) do rank0 loc_seg_id remote_seg_id queue_id localbuf remote_data
        when (not (rank == 0)) do
          gaspi 89 (Call.read (place loc_seg_id 0) 1 (place remote_seg_id 0) (size_of int) queue_id)
        epilogue 92 rank num

abbrev pub call_chains_tests : List (TestCase Call)
call_chains_tests = write_load_deep_nesting_local_no ∷ read_load_deep_nesting_remote_no ∷ []
