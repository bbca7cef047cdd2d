-- ===== src/Mpi/Conflict/PutRemote.antt =====
-- A put and a second access to the memory of its target: tests of MPIRMA/conflict.
use rmarace_bench.Base.{List, [], ◌∷◌, none, ◌==◌}
use rmarace_bench.Race.Access.{int}
use rmarace_bench.Race.Label.{
  remote_race, local_load, local_store, rma_atomic_read, rma_atomic_write, rma_write,
}
use rmarace_bench.Program.{◌>>◌, when, load_int, store_int, elem}
use rmarace_bench.TestCase.{TestCase, test, racy}
use rmarace_bench.Mpi.Call.{sum, no_op, Call, mpi}
use rmarace_bench.Mpi.Boilerplate.{value, win, win_base, prologue, epilogue}

-- MPIRMA/conflict/022-MPI-conflict-put-load-remote-yes.c
unfoldable pub put_load_remote_yes : TestCase Call
unfolding prologue epilogue
put_load_remote_yes =
    test "MPIRMA/conflict/022-MPI-conflict-put-load-remote-yes.c"
      (racy remote_race rma_write local_load "MPI_Put" 56 "LOAD" 61 2) 2
      λ rank size. do
        prologue 27 2 rank size
        mpi 51 (Call.win_fence 0 win)
        when (rank == 0) do mpi 56 (Call.put value 1 int 1 0 1 int win)
        when (rank == 1) do load_int 61 (elem win_base 0)
        mpi 64 (Call.win_fence 0 win)
        epilogue 66

-- MPIRMA/conflict/023-MPI-conflict-put-store-remote-yes.c
unfoldable pub put_store_remote_yes : TestCase Call
unfolding prologue epilogue
put_store_remote_yes =
    test "MPIRMA/conflict/023-MPI-conflict-put-store-remote-yes.c"
      (racy remote_race rma_write local_store "MPI_Put" 56 "STORE" 61 2) 2
      λ rank size. do
        prologue 27 2 rank size
        mpi 51 (Call.win_fence 0 win)
        when (rank == 0) do mpi 56 (Call.put value 1 int 1 0 1 int win)
        when (rank == 1) do store_int 61 (elem win_base 0) 42
        mpi 64 (Call.win_fence 0 win)
        epilogue 66

-- MPIRMA/conflict/024-MPI-conflict-put-put-remote-yes.c
unfoldable pub put_put_remote_yes : TestCase Call
unfolding prologue epilogue
put_put_remote_yes =
    test "MPIRMA/conflict/024-MPI-conflict-put-put-remote-yes.c"
      (racy remote_race rma_write rma_write "MPI_Put" 56 "MPI_Put" 62 3) 3
      λ rank size. do
        prologue 27 3 rank size
        mpi 51 (Call.win_fence 0 win)
        when (rank == 0) do mpi 56 (Call.put value 1 int 1 0 1 int win)
        when (rank == 2) do store_int 60 value 2; mpi 62 (Call.put value 1 int 1 0 1 int win)
        mpi 65 (Call.win_fence 0 win)
        epilogue 67

-- MPIRMA/conflict/025-MPI-conflict-put-gaccread-remote-yes.c
unfoldable pub put_gaccread_remote_yes : TestCase Call
unfolding prologue epilogue
put_gaccread_remote_yes =
    test "MPIRMA/conflict/025-MPI-conflict-put-gaccread-remote-yes.c"
      (racy remote_race rma_write rma_atomic_read "MPI_Put" 56 "MPI_Get_accumulate" 62 3) 3
      λ rank size. do
        prologue 27 3 rank size
        mpi 51 (Call.win_fence 0 win)
        when (rank == 0) do mpi 56 (Call.put value 1 int 1 0 1 int win)
        when (rank == 2) do
          store_int 60 value 2
          mpi 62 (Call.get_accumulate none 0 value 1 int 1 0 1 int no_op win)
        mpi 65 (Call.win_fence 0 win)
        epilogue 67

-- MPIRMA/conflict/026-MPI-conflict-put-acc-remote-yes.c
unfoldable pub put_acc_remote_yes : TestCase Call
unfolding prologue epilogue
put_acc_remote_yes =
    test "MPIRMA/conflict/026-MPI-conflict-put-acc-remote-yes.c"
      (racy remote_race rma_write rma_atomic_write "MPI_Put" 56 "MPI_Accumulate" 62 3) 3
      λ rank size. do
        prologue 27 3 rank size
        mpi 51 (Call.win_fence 0 win)
        when (rank == 0) do mpi 56 (Call.put value 1 int 1 0 1 int win)
        when (rank == 2)
            do store_int 60 value 2; mpi 62 (Call.accumulate value 1 int 1 0 1 int sum win)
        mpi 65 (Call.win_fence 0 win)
        epilogue 67

abbrev pub put_remote_tests : List (TestCase Call)
put_remote_tests =
    put_load_remote_yes ∷ put_store_remote_yes ∷ put_put_remote_yes ∷ put_gaccread_remote_yes
    ∷ put_acc_remote_yes ∷ []
