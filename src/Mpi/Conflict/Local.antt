-- ===== src/Mpi/Conflict/Local.antt =====
-- A put or get and a second use of its local buffer, under fences: tests of MPIRMA/conflict.
use rmarace_bench.Base.{List, [], ◌∷◌, ◌==◌}
use rmarace_bench.Race.Access.{int}
use rmarace_bench.Race.Label.{local_race, buffer_read, buffer_write, local_load, local_store}
use rmarace_bench.Program.{◌>>◌, when, load_int, store_int}
use rmarace_bench.TestCase.{TestCase, test, racy, quiet}
use rmarace_bench.Mpi.Call.{Call, mpi}
use rmarace_bench.Mpi.Boilerplate.{value, win, prologue, epilogue}

-- MPIRMA/conflict/001-MPI-conflict-put-load-local-no.c
unfoldable pub put_load_local_no : TestCase Call
unfolding prologue epilogue
put_load_local_no =
    test "MPIRMA/conflict/001-MPI-conflict-put-load-local-no.c" (quiet 2) 2 λ rank size. do
      prologue 25 2 rank size
      mpi 49 (Call.win_fence 0 win)
      when (rank == 0) do mpi 51 (Call.put value 1 int 1 0 1 int win); load_int 52 value
      mpi 54 (Call.win_fence 0 win)
      epilogue 56

-- MPIRMA/conflict/002-MPI-conflict-put-store-local-yes.c
unfoldable pub put_store_local_yes : TestCase Call
unfolding prologue epilogue
put_store_local_yes =
    test "MPIRMA/conflict/002-MPI-conflict-put-store-local-yes.c"
      (racy local_race buffer_read local_store "MPI_Put" 54 "STORE" 56 2) 2
      λ rank size. do
        prologue 27 2 rank size
        mpi 51 (Call.win_fence 0 win)
        when (rank == 0) do mpi 54 (Call.put value 1 int 1 0 1 int win); store_int 56 value 42
        mpi 58 (Call.win_fence 0 win)
        epilogue 60

-- MPIRMA/conflict/003-MPI-conflict-put-put-local-no.c
unfoldable pub put_put_local_no : TestCase Call
unfolding prologue epilogue
put_put_local_no =
    test "MPIRMA/conflict/003-MPI-conflict-put-put-local-no.c" (quiet 2) 2 λ rank size. do
      prologue 25 2 rank size
      mpi 49 (Call.win_fence 0 win)
      when (rank == 0) do
        mpi 51 (Call.put value 1 int 1 0 1 int win)
        mpi 52 (Call.put value 1 int 1 1 1 int win)
      mpi 54 (Call.win_fence 0 win)
      epilogue 56

-- MPIRMA/conflict/004-MPI-conflict-get-load-local-yes.c
unfoldable pub get_load_local_yes : TestCase Call
unfolding prologue epilogue
get_load_local_yes =
    test "MPIRMA/conflict/004-MPI-conflict-get-load-local-yes.c"
      (racy local_race buffer_write local_load "MPI_Get" 54 "LOAD" 56 2) 2
      λ rank size. do
        prologue 27 2 rank size
        mpi 51 (Call.win_fence 0 win)
        when (rank == 0) do mpi 54 (Call.get value 1 int 1 0 1 int win); load_int 56 value
        mpi 58 (Call.win_fence 0 win)
        epilogue 60

-- MPIRMA/conflict/005-MPI-conflict-get-store-local-yes.c
unfoldable pub get_store_local_yes : TestCase Call
unfolding prologue epilogue
get_store_local_yes =
    test "MPIRMA/conflict/005-MPI-conflict-get-store-local-yes.c"
      (racy local_race buffer_write local_store "MPI_Get" 54 "STORE" 56 2) 2
      λ rank size. do
        prologue 27 2 rank size
        mpi 51 (Call.win_fence 0 win)
        when (rank == 0) do mpi 54 (Call.get value 1 int 1 0 1 int win); store_int 56 value 42
        mpi 58 (Call.win_fence 0 win)
        epilogue 60

-- MPIRMA/conflict/006-MPI-conflict-get-put-local-yes.c
unfoldable pub get_put_local_yes : TestCase Call
unfolding prologue epilogue
get_put_local_yes =
    test "MPIRMA/conflict/006-MPI-conflict-get-put-local-yes.c"
      (racy local_race buffer_write buffer_read "MPI_Get" 54 "MPI_Put" 56 2) 2
      λ rank size. do
        prologue 27 2 rank size
        mpi 51 (Call.win_fence 0 win)
        when (rank == 0) do
          mpi 54 (Call.get value 1 int 1 0 1 int win)
          mpi 56 (Call.put value 1 int 1 0 1 int win)
        mpi 58 (Call.win_fence 0 win)
        epilogue 60

-- MPIRMA/conflict/007-MPI-conflict-get-get-local-yes.c
unfoldable pub get_get_local_yes : TestCase Call
unfolding prologue epilogue
get_get_local_yes =
    test "MPIRMA/conflict/007-MPI-conflict-get-get-local-yes.c"
      (racy local_race buffer_write buffer_write "MPI_Get" 54 "MPI_Get" 56 2) 2
      λ rank size. do
        prologue 27 2 rank size
        mpi 51 (Call.win_fence 0 win)
        when (rank == 0) do
          mpi 54 (Call.get value 1 int 1 0 1 int win)
          mpi 56 (Call.get value 1 int 1 0 1 int win)
        mpi 58 (Call.win_fence 0 win)
        epilogue 60

abbrev pub local_tests : List (TestCase Call)
local_tests =
    put_load_local_no ∷ put_store_local_yes ∷ put_put_local_no ∷ get_load_local_yes
    ∷ get_store_local_yes ∷ get_put_local_yes ∷ get_get_local_yes ∷ []
