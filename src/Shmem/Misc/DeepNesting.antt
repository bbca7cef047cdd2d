-- ===== src/Shmem/Misc/DeepNesting.antt =====
-- The operation in a chain of calls: tests of SHMEM/misc.
-- A pointer variable is a value of the model.
use rmarace_bench.Base.{List, [], ◌∷◌, not, ◌==◌}
use rmarace_bench.Race.Label.{
  local_race, remote_race, buffer_write, local_load, local_store, rma_read,
}
use rmarace_bench.Program.{Ptr, Run, ◌>>◌, when, load_int, store_int}
use rmarace_bench.TestCase.{TestCase, test, racy, quiet}
use rmarace_bench.Shmem.Call.{Call, shmem}
use rmarace_bench.Shmem.Boilerplate.{remote, localbuf, prologue, epilogue}

-- SHMEM/misc/001-shmem-misc-putnbi-load-deep-nesting-local-no.c
unfoldable pub putnbi_load_deep_nesting_local_no : TestCase Call
unfolding prologue epilogue
putnbi_load_deep_nesting_local_no =
    test "SHMEM/misc/001-shmem-misc-putnbi-load-deep-nesting-local-no.c" (quiet 2) 2 λ my_pe num_pe.
      do
        let deeeeeeeeep : Ptr → Ptr → Run Call (Unit {0}) =
            λ rem_ptr lbuf_ptr. shmem 20 (Call.put_nbi rem_ptr lbuf_ptr 1 1)
        let deeeeeeeep : Ptr → Ptr → Run Call (Unit {0}) =
            λ rem_ptr lbuf_ptr. deeeeeeeeep rem_ptr lbuf_ptr
        let deeeeeeep : Ptr → Ptr → Run Call (Unit {0}) =
            λ rem_ptr lbuf_ptr. deeeeeeeep rem_ptr lbuf_ptr
        let deeeeeep : Ptr → Ptr → Run Call (Unit {0}) =
            λ rem_ptr lbuf_ptr. deeeeeeep rem_ptr lbuf_ptr
        let deeeeep : Ptr → Ptr → Run Call (Unit {0}) =
            λ rem_ptr lbuf_ptr. deeeeeep rem_ptr lbuf_ptr
        let deeeep : Ptr → Ptr → Run Call (Unit {0}) = λ rem_ptr lbuf_ptr. deeeeep rem_ptr lbuf_ptr
        let deeep : Ptr → Ptr → Run Call (Unit {0}) = λ rem_ptr lbuf_ptr. deeeep rem_ptr lbuf_ptr
        let deep : Ptr → Ptr → Run Call (Unit {0}) = λ rem_ptr lbuf_ptr. deeep rem_ptr lbuf_ptr
        let rank0 : Ptr → Ptr → Run Call (Unit {0}) =
            λ rem_ptr lbuf_ptr. deep rem_ptr lbuf_ptr >> load_int 33 lbuf_ptr
        prologue 38 0 2 my_pe num_pe
        let rem_ptr = remote
        let lbuf_ptr = localbuf
        shmem 55 Call.barrier_all
        when (my_pe == 0) do rank0 rem_ptr lbuf_ptr
        epilogue 61

-- SHMEM/misc/002-shmem-misc-getnbi-load-deep-nesting-local-yes.c
unfoldable pub getnbi_load_deep_nesting_local_yes : TestCase Call
unfolding prologue epilogue
getnbi_load_deep_nesting_local_yes =
    test "SHMEM/misc/002-shmem-misc-getnbi-load-deep-nesting-local-yes.c"
      (racy local_race buffer_write local_load "shmem_int_get_nbi" 25 "LOAD" 40 2) 2
      λ my_pe num_pe. do
        let deeeeeeeeep : Ptr → Ptr → Run Call (Unit {0}) =
            λ rem_ptr lbuf_ptr. shmem 25 (Call.get_nbi lbuf_ptr rem_ptr 1 1)
        let deeeeeeeep : Ptr → Ptr → Run Call (Unit {0}) =
            λ rem_ptr lbuf_ptr. deeeeeeeeep rem_ptr lbuf_ptr
        let deeeeeeep : Ptr → Ptr → Run Call (Unit {0}) =
            λ rem_ptr lbuf_ptr. deeeeeeeep rem_ptr lbuf_ptr
        let deeeeeep : Ptr → Ptr → Run Call (Unit {0}) =
            λ rem_ptr lbuf_ptr. deeeeeeep rem_ptr lbuf_ptr
        let deeeeep : Ptr → Ptr → Run Call (Unit {0}) =
            λ rem_ptr lbuf_ptr. deeeeeep rem_ptr lbuf_ptr
        let deeeep : Ptr → Ptr → Run Call (Unit {0}) = λ rem_ptr lbuf_ptr. deeeeep rem_ptr lbuf_ptr
        let deeep : Ptr → Ptr → Run Call (Unit {0}) = λ rem_ptr lbuf_ptr. deeeep rem_ptr lbuf_ptr
        let deep : Ptr → Ptr → Run Call (Unit {0}) = λ rem_ptr lbuf_ptr. deeep rem_ptr lbuf_ptr
        let rank0 : Ptr → Ptr → Run Call (Unit {0}) =
            λ rem_ptr lbuf_ptr. deep rem_ptr lbuf_ptr >> load_int 40 lbuf_ptr
        prologue 45 0 2 my_pe num_pe
        let rem_ptr = remote
        let lbuf_ptr = localbuf
        shmem 62 Call.barrier_all
        when (my_pe == 0) do rank0 rem_ptr lbuf_ptr
        epilogue 68

-- SHMEM/misc/009-shmem-misc-get-load-deep-nesting-remote-no.c
unfoldable pub get_load_deep_nesting_remote_no : TestCase Call
unfolding prologue epilogue
get_load_deep_nesting_remote_no =
    test "SHMEM/misc/009-shmem-misc-get-load-deep-nesting-remote-no.c" (quiet 2) 2 λ my_pe num_pe.
      do
        let deeeeeeeeep : Ptr → Ptr → Run Call (Unit {0}) =
            λ rem_ptr lbuf_ptr. shmem 20 (Call.get lbuf_ptr rem_ptr 1 1)
        let deeeeeeeep : Ptr → Ptr → Run Call (Unit {0}) =
            λ rem_ptr lbuf_ptr. deeeeeeeeep rem_ptr lbuf_ptr
        let deeeeeeep : Ptr → Ptr → Run Call (Unit {0}) =
            λ rem_ptr lbuf_ptr. deeeeeeeep rem_ptr lbuf_ptr
        let deeeeeep : Ptr → Ptr → Run Call (Unit {0}) =
            λ rem_ptr lbuf_ptr. deeeeeeep rem_ptr lbuf_ptr
        let deeeeep : Ptr → Ptr → Run Call (Unit {0}) =
            λ rem_ptr lbuf_ptr. deeeeeep rem_ptr lbuf_ptr
        let deeeep : Ptr → Ptr → Run Call (Unit {0}) = λ rem_ptr lbuf_ptr. deeeeep rem_ptr lbuf_ptr
        let deeep : Ptr → Ptr → Run Call (Unit {0}) = λ rem_ptr lbuf_ptr. deeeep rem_ptr lbuf_ptr
        let deep : Ptr → Ptr → Run Call (Unit {0}) = λ rem_ptr lbuf_ptr. deeep rem_ptr lbuf_ptr
        let rank0 : Ptr → Ptr → Run Call (Unit {0}) = λ rem_ptr lbuf_ptr. deep rem_ptr lbuf_ptr
        prologue 34 0 2 my_pe num_pe
        let rem_ptr = remote
        let lbuf_ptr = localbuf
        shmem 51 Call.barrier_all
        when (my_pe == 0) do rank0 rem_ptr lbuf_ptr
        when (not (my_pe == 0)) do load_int 56 rem_ptr
        epilogue 59

-- SHMEM/misc/010-shmem-misc-get-store-deep-nesting-remote-yes.c
unfoldable pub get_store_deep_nesting_remote_yes : TestCase Call
unfolding prologue epilogue
get_store_deep_nesting_remote_yes =
    test "SHMEM/misc/010-shmem-misc-get-store-deep-nesting-remote-yes.c"
      (racy remote_race rma_read local_store "shmem_int_get" 25 "STORE" 63 2) 2
      λ my_pe num_pe. do
        let deeeeeeeeep : Ptr → Ptr → Run Call (Unit {0}) =
            λ rem_ptr lbuf_ptr. shmem 25 (Call.get lbuf_ptr rem_ptr 1 1)
        let deeeeeeeep : Ptr → Ptr → Run Call (Unit {0}) =
            λ rem_ptr lbuf_ptr. deeeeeeeeep rem_ptr lbuf_ptr
        let deeeeeeep : Ptr → Ptr → Run Call (Unit {0}) =
            λ rem_ptr lbuf_ptr. deeeeeeeep rem_ptr lbuf_ptr
        let deeeeeep : Ptr → Ptr → Run Call (Unit {0}) =
            λ rem_ptr lbuf_ptr. deeeeeeep rem_ptr lbuf_ptr
        let deeeeep : Ptr → Ptr → Run Call (Unit {0}) =
            λ rem_ptr lbuf_ptr. deeeeeep rem_ptr lbuf_ptr
        let deeeep : Ptr → Ptr → Run Call (Unit {0}) = λ rem_ptr lbuf_ptr. deeeeep rem_ptr lbuf_ptr
        let deeep : Ptr → Ptr → Run Call (Unit {0}) = λ rem_ptr lbuf_ptr. deeeep rem_ptr lbuf_ptr
        let deep : Ptr → Ptr → Run Call (Unit {0}) = λ rem_ptr lbuf_ptr. deeep rem_ptr lbuf_ptr
        let rank0 : Ptr → Ptr → Run Call (Unit {0}) = λ rem_ptr lbuf_ptr. deep rem_ptr lbuf_ptr
        prologue 40 0 2 my_pe num_pe
        let rem_ptr = remote
        let lbuf_ptr = localbuf
        shmem 57 Call.barrier_all
        when (my_pe == 0) do rank0 rem_ptr lbuf_ptr
        when (not (my_pe == 0)) do store_int 63 rem_ptr 42
        epilogue 66

abbrev pub deep_nesting_tests : List (TestCase Call)
deep_nesting_tests =
    putnbi_load_deep_nesting_local_no ∷ getnbi_load_deep_nesting_local_yes
    ∷ get_load_deep_nesting_remote_no ∷ get_store_deep_nesting_remote_yes ∷ []
