-- ===== src/Mpi/Conflict/GetRemote.antt =====
-- A get and a second access to the memory of its target: tests of MPIRMA/conflict.
use rmarace_bench.Base.{List, [], ◌∷◌, none, ◌==◌}
use rmarace_bench.Race.Access.{int}
use rmarace_bench.Race.Label.{remote_race, local_store, rma_atomic_write, rma_read, rma_write}
use rmarace_bench.Program.{◌>>◌, when, load_int, store_int, elem}
use rmarace_bench.TestCase.{TestCase, test, racy, quiet}
use rmarace_bench.Mpi.Call.{sum, no_op, Call, mpi}
use rmarace_bench.Mpi.Boilerplate.{value, win, win_base, prologue, epilogue}

-- MPIRMA/conflict/016-MPI-conflict-get-load-remote-no.c
unfoldable pub get_load_remote_no : TestCase Call
unfolding prologue epilogue
get_load_remote_no =
    test "MPIRMA/conflict/016-MPI-conflict-get-load-remote-no.c" (quiet 2) 2 λ rank size. do
      prologue 25 2 rank size
      mpi 49 (Call.win_fence 0 win)
      when (rank == 0) do mpi 52 (Call.get value 1 int 1 0 1 int win)
      when (rank == 1) do load_int 56 (elem win_base 0)
      mpi 59 (Call.win_fence 0 win)
      epilogue 61

-- MPIRMA/conflict/017-MPI-conflict-get-get-remote-no.c
unfoldable pub get_get_remote_no : TestCase Call
unfolding prologue epilogue
get_get_remote_no =
    test "MPIRMA/conflict/017-MPI-conflict-get-get-remote-no.c" (quiet 3) 3 λ rank size. do
      prologue 25 3 rank size
      mpi 49 (Call.win_fence 0 win)
      when (rank == 0) do mpi 52 (Call.get value 1 int 1 0 1 int win)
      when (rank == 2) do mpi 56 (Call.get value 1 int 1 0 1 int win)
      mpi 59 (Call.win_fence 0 win)
      epilogue 61

-- MPIRMA/conflict/018-MPI-conflict-get-store-remote-yes.c
unfoldable pub get_store_remote_yes : TestCase Call
unfolding prologue epilogue
get_store_remote_yes =
    test "MPIRMA/conflict/018-MPI-conflict-get-store-remote-yes.c"
      (racy remote_race rma_read local_store "MPI_Get" 56 "STORE" 61 2) 2
      λ rank size. do
        prologue 27 2 rank size
        mpi 51 (Call.win_fence 0 win)
        when (rank == 0) do mpi 56 (Call.get value 1 int 1 0 1 int win)
        when (rank == 1) do store_int 61 (elem win_base 0) 42
        mpi 64 (Call.win_fence 0 win)
        epilogue 66

-- MPIRMA/conflict/019-MPI-conflict-get-put-remote-yes.c
unfoldable pub get_put_remote_yes : TestCase Call
unfolding prologue epilogue
get_put_remote_yes =
    test "MPIRMA/conflict/019-MPI-conflict-get-put-remote-yes.c"
      (racy remote_race rma_read rma_write "MPI_Get" 56 "MPI_Put" 62 3) 3
      λ rank size. do
        prologue 27 3 rank size
        mpi 51 (Call.win_fence 0 win)
        when (rank == 0) do mpi 56 (Call.get value 1 int 1 0 1 int win)
        when (rank == 2) do store_int 60 value 2; mpi 62 (Call.put value 1 int 1 0 1 int win)
        mpi 65 (Call.win_fence 0 win)
        epilogue 67

-- MPIRMA/conflict/020-MPI-conflict-get-gaccread-remote-no.c
unfoldable pub get_gaccread_remote_no : TestCase Call
unfolding prologue epilogue
get_gaccread_remote_no =
    test "MPIRMA/conflict/020-MPI-conflict-get-gaccread-remote-no.c" (quiet 3) 3 λ rank size. do
      prologue 25 3 rank size
      mpi 49 (Call.win_fence 0 win)
      when (rank == 0) do mpi 52 (Call.get value 1 int 1 0 1 int win)
      when (rank == 2) do
        store_int 56 value 2
        mpi 57 (Call.get_accumulate none 0 value 1 int 1 0 1 int no_op win)
      mpi 60 (Call.win_fence 0 win)
      epilogue 62

-- MPIRMA/conflict/021-MPI-conflict-get-acc-remote-yes.c
unfoldable pub get_acc_remote_yes : TestCase Call
unfolding prologue epilogue
get_acc_remote_yes =
    test "MPIRMA/conflict/021-MPI-conflict-get-acc-remote-yes.c"
      (racy remote_race rma_read rma_atomic_write "MPI_Get" 56 "MPI_Accumulate" 62 3) 3
      λ rank size. do
        prologue 27 3 rank size
        mpi 51 (Call.win_fence 0 win)
        when (rank == 0) do mpi 56 (Call.get value 1 int 1 0 1 int win)
        when (rank == 2)
            do store_int 60 value 2; mpi 62 (Call.accumulate value 1 int 1 0 1 int sum win)
        mpi 65 (Call.win_fence 0 win)
        epilogue 67

abbrev pub get_remote_tests : List (TestCase Call)
get_remote_tests =
    get_load_remote_no ∷ get_get_remote_no ∷ get_store_remote_yes ∷ get_put_remote_yes
    ∷ get_gaccread_remote_no ∷ get_acc_remote_yes ∷ []
