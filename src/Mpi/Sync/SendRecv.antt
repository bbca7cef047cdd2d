-- ===== src/Mpi/Sync/SendRecv.antt =====
-- Shared locks and messages: tests of MPIRMA/sync.
use rmarace_bench.Base.{List, [], ◌∷◌, ◌==◌}
use rmarace_bench.Race.Access.{int}
use rmarace_bench.Race.Label.{remote_race, local_load, rma_write}
use rmarace_bench.Program.{◌>>◌, when, load_int, store_int, elem}
use rmarace_bench.TestCase.{TestCase, test, racy, quiet}
use rmarace_bench.Mpi.Call.{lock_shared, lock_exclusive, Call, mpi}
use rmarace_bench.Mpi.Boilerplate.{value, token, win, win_base, prologue, epilogue}

-- MPIRMA/sync/030-MPI-sync-lock-sendrecv-remote-yes.c
unfoldable pub lock_sendrecv_remote_yes : TestCase Call
unfolding prologue epilogue
lock_sendrecv_remote_yes =
    test "MPIRMA/sync/030-MPI-sync-lock-sendrecv-remote-yes.c"
      (racy remote_race rma_write local_load "MPI_Put" 56 "LOAD" 64 2) 2
      λ rank size. do
        prologue 26 2 rank size
        mpi 50 Call.barrier
        when (rank == 0) do
          store_int 53 value 1
          mpi 54 (Call.win_lock lock_shared 1 0 win)
          mpi 56 (Call.put value 1 int 1 0 1 int win)
          mpi 57 (Call.win_unlock 1 win)
          mpi 59 (Call.send token 1 int 1 0)
        when (rank == 1) do load_int 64 (elem win_base 0); mpi 65 (Call.recv token 1 int 0 0)
        epilogue 68

-- MPIRMA/sync/031-MPI-sync-lock-sendrecv-remote-no.c
unfoldable pub lock_sendrecv_remote_no : TestCase Call
unfolding prologue epilogue
lock_sendrecv_remote_no =
    test "MPIRMA/sync/031-MPI-sync-lock-sendrecv-remote-no.c" (quiet 2) 2 λ rank size. do
      prologue 25 2 rank size
      mpi 49 Call.barrier
      when (rank == 0) do
        store_int 52 value 1
        mpi 53 (Call.win_lock lock_shared 1 0 win)
        mpi 54 (Call.put value 1 int 1 0 1 int win)
        mpi 55 (Call.win_unlock 1 win)
        mpi 57 (Call.send token 1 int 1 0)
      when (rank == 1) do mpi 61 (Call.recv token 1 int 0 0); load_int 62 (elem win_base 0)
      epilogue 65

-- MPIRMA/sync/032-MPI-sync-lock-sendrecv-3procs-remote-no.c
unfoldable pub lock_sendrecv_3procs_remote_no : TestCase Call
unfolding prologue epilogue
lock_sendrecv_3procs_remote_no =
    test "MPIRMA/sync/032-MPI-sync-lock-sendrecv-3procs-remote-no.c" (quiet 3) 3 λ rank size. do
      prologue 25 3 rank size
      mpi 49 Call.barrier
      when (rank == 0) do
        store_int 52 value 1
        mpi 53 (Call.win_lock lock_shared 1 0 win)
        mpi 54 (Call.put value 1 int 1 0 1 int win)
        mpi 55 (Call.win_unlock 1 win)
        mpi 57 (Call.send token 1 int 2 0)
      when (rank == 2) do
        mpi 66 (Call.recv token 1 int 0 0)
        store_int 68 value 1
        mpi 69 (Call.win_lock lock_shared 1 0 win)
        mpi 70 (Call.put value 1 int 1 0 1 int win)
        mpi 71 (Call.win_unlock 1 win)
      epilogue 74

-- MPIRMA/sync/033-MPI-sync-lock-sendrecv-3procs-remote-yes.c
unfoldable pub lock_sendrecv_3procs_remote_yes : TestCase Call
unfolding prologue epilogue
lock_sendrecv_3procs_remote_yes =
    test "MPIRMA/sync/033-MPI-sync-lock-sendrecv-3procs-remote-yes.c"
      (racy remote_race rma_write local_load "MPI_Put" 56 "LOAD" 64 3) 3
      λ rank size. do
        prologue 26 3 rank size
        mpi 50 Call.barrier
        when (rank == 0) do
          store_int 53 value 1
          mpi 54 (Call.win_lock lock_exclusive 1 0 win)
          mpi 56 (Call.put value 1 int 1 0 1 int win)
          mpi 57 (Call.win_unlock 1 win)
          mpi 58 (Call.send token 1 int 1 0)
        when (rank == 1) do
          mpi 62 (Call.recv token 1 int 2 0)
          load_int 64 (elem win_base 0)
          mpi 65 (Call.recv token 1 int 0 0)
        when (rank == 2) do mpi 69 (Call.send token 1 int 1 0)
        epilogue 72

abbrev pub send_recv_tests : List (TestCase Call)
send_recv_tests =
    lock_sendrecv_remote_yes ∷ lock_sendrecv_remote_no ∷ lock_sendrecv_3procs_remote_no
    ∷ lock_sendrecv_3procs_remote_yes ∷ []
