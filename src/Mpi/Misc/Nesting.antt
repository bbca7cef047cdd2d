-- ===== src/Mpi/Misc/Nesting.antt =====
-- The operation in a chain of calls: tests of MPIRMA/misc.
-- A pointer variable is a value of the model.
use rmarace_bench.Base.{String, List, [], ◌∷◌, not, ◌==◌}
use rmarace_bench.Race.Access.{int}
use rmarace_bench.Race.Label.{
  local_race, remote_race, buffer_write, local_load, local_store, rma_read,
}
use rmarace_bench.Program.{Ptr, Run, ◌>>◌, when, load_int, store_int, elem}
use rmarace_bench.TestCase.{TestCase, test, racy, quiet}
use rmarace_bench.Mpi.Call.{Call, mpi}
use rmarace_bench.Mpi.Boilerplate.{buf, win, win_base, prologue, epilogue}

-- MPIRMA/misc/001-MPI-misc-put-load-deep-nesting-local-no.c
unfoldable pub put_load_deep_nesting_local_no : TestCase Call
unfolding prologue epilogue
put_load_deep_nesting_local_no =
    test "MPIRMA/misc/001-MPI-misc-put-load-deep-nesting-local-no.c" (quiet 2) 2 λ rank size. do
      let deeeeeeeeep : Ptr → String → Run Call (Unit {0}) =
          λ buf win. mpi 22 (Call.put buf 1 int 1 0 1 int win)
      let deeeeeeeep : Ptr → String → Run Call (Unit {0}) = λ buf win. deeeeeeeeep buf win
      let deeeeeeep : Ptr → String → Run Call (Unit {0}) = λ buf win. deeeeeeeep buf win
      let deeeeeep : Ptr → String → Run Call (Unit {0}) = λ buf win. deeeeeeep buf win
      let deeeeep : Ptr → String → Run Call (Unit {0}) = λ buf win. deeeeeep buf win
      let deeeep : Ptr → String → Run Call (Unit {0}) = λ buf win. deeeeep buf win
      let deeep : Ptr → String → Run Call (Unit {0}) = λ buf win. deeeep buf win
      let deep : Ptr → String → Run Call (Unit {0}) = λ buf win. deeep buf win
      let rank0 : Ptr → String → Run Call (Unit {0}) = λ buf win. deep buf win >> load_int 35 buf
      prologue 41 2 rank size
      mpi 65 (Call.win_fence 0 win)
      when (rank == 0) do rank0 buf win
      mpi 70 (Call.win_fence 0 win)
      epilogue 72

-- MPIRMA/misc/002-MPI-misc-get-load-deep-nesting-local-yes.c
unfoldable pub get_load_deep_nesting_local_yes : TestCase Call
unfolding prologue epilogue
get_load_deep_nesting_local_yes =
    test "MPIRMA/misc/002-MPI-misc-get-load-deep-nesting-local-yes.c"
      (racy local_race buffer_write local_load "MPI_Get" 28 "LOAD" 43 2) 2
      λ rank size. do
        let deeeeeeeeep : Ptr → String → Run Call (Unit {0}) =
            λ buf win. mpi 28 (Call.get buf 1 int 1 0 1 int win)
        let deeeeeeeep : Ptr → String → Run Call (Unit {0}) = λ buf win. deeeeeeeeep buf win
        let deeeeeeep : Ptr → String → Run Call (Unit {0}) = λ buf win. deeeeeeeep buf win
        let deeeeeep : Ptr → String → Run Call (Unit {0}) = λ buf win. deeeeeeep buf win
        let deeeeep : Ptr → String → Run Call (Unit {0}) = λ buf win. deeeeeep buf win
        let deeeep : Ptr → String → Run Call (Unit {0}) = λ buf win. deeeeep buf win
        let deeep : Ptr → String → Run Call (Unit {0}) = λ buf win. deeeep buf win
        let deep : Ptr → String → Run Call (Unit {0}) = λ buf win. deeep buf win
        let rank0 : Ptr → String → Run Call (Unit {0}) = λ buf win. deep buf win >> load_int 43 buf
        prologue 49 2 rank size
        mpi 73 (Call.win_fence 0 win)
        when (rank == 0) do rank0 buf win
        mpi 78 (Call.win_fence 0 win)
        epilogue 80

-- MPIRMA/misc/009-MPI-misc-get-load-deep-nesting-remote-no.c
unfoldable pub get_load_deep_nesting_remote_no : TestCase Call
unfolding prologue epilogue
get_load_deep_nesting_remote_no =
    test "MPIRMA/misc/009-MPI-misc-get-load-deep-nesting-remote-no.c" (quiet 2) 2 λ rank size. do
      let deeeeeeeeep : Ptr → String → Run Call (Unit {0}) =
          λ buf win. mpi 22 (Call.get buf 1 int 1 0 1 int win)
      let deeeeeeeep : Ptr → String → Run Call (Unit {0}) = λ buf win. deeeeeeeeep buf win
      let deeeeeeep : Ptr → String → Run Call (Unit {0}) = λ buf win. deeeeeeeep buf win
      let deeeeeep : Ptr → String → Run Call (Unit {0}) = λ buf win. deeeeeeep buf win
      let deeeeep : Ptr → String → Run Call (Unit {0}) = λ buf win. deeeeeep buf win
      let deeeep : Ptr → String → Run Call (Unit {0}) = λ buf win. deeeeep buf win
      let deeep : Ptr → String → Run Call (Unit {0}) = λ buf win. deeeep buf win
      let deep : Ptr → String → Run Call (Unit {0}) = λ buf win. deeep buf win
      let rank0 : Ptr → String → Run Call (Unit {0}) = λ buf win. deep buf win
      prologue 37 2 rank size
      mpi 60 (Call.win_fence 0 win)
      when (rank == 0) do rank0 buf win
      when (not (rank == 0)) do load_int 65 (elem win_base 0)
      mpi 67 (Call.win_fence 0 win)
      epilogue 69

-- MPIRMA/misc/010-MPI-misc-get-store-deep-nesting-remote-yes.c
unfoldable pub get_store_deep_nesting_remote_yes : TestCase Call
unfolding prologue epilogue
get_store_deep_nesting_remote_yes =
    test "MPIRMA/misc/010-MPI-misc-get-store-deep-nesting-remote-yes.c"
      (racy remote_race rma_read local_store "MPI_Get" 28 "STORE" 73 2) 2
      λ rank size. do
        let deeeeeeeeep : Ptr → String → Run Call (Unit {0}) =
            λ buf win. mpi 28 (Call.get buf 1 int 1 0 1 int win)
        let deeeeeeeep : Ptr → String → Run Call (Unit {0}) = λ buf win. deeeeeeeeep buf win
        let deeeeeeep : Ptr → String → Run Call (Unit {0}) = λ buf win. deeeeeeeep buf win
        let deeeeeep : Ptr → String → Run Call (Unit {0}) = λ buf win. deeeeeeep buf win
        let deeeeep : Ptr → String → Run Call (Unit {0}) = λ buf win. deeeeeep buf win
        let deeeep : Ptr → String → Run Call (Unit {0}) = λ buf win. deeeeep buf win
        let deeep : Ptr → String → Run Call (Unit {0}) = λ buf win. deeeep buf win
        let deep : Ptr → String → Run Call (Unit {0}) = λ buf win. deeep buf win
        let rank0 : Ptr → String → Run Call (Unit {0}) = λ buf win. deep buf win
        prologue 44 2 rank size
        mpi 67 (Call.win_fence 0 win)
        when (rank == 0) do rank0 buf win
        when (not (rank == 0)) do store_int 73 (elem win_base 0) 42
        mpi 75 (Call.win_fence 0 win)
        epilogue 77

abbrev pub nesting_tests : List (TestCase Call)
nesting_tests =
    put_load_deep_nesting_local_no ∷ get_load_deep_nesting_local_yes
    ∷ get_load_deep_nesting_remote_no ∷ get_store_deep_nesting_remote_yes ∷ []
