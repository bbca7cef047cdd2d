-- ===== src/Mpi/Sync/LockAll.antt =====
-- Epochs of MPI_Win_lock_all: tests of MPIRMA/sync.
use rmarace_bench.Base.{List, [], ◌∷◌, ◌==◌}
use rmarace_bench.Race.Access.{int}
use rmarace_bench.Race.Label.{remote_race, local_load, rma_write}
use rmarace_bench.Program.{◌>>◌, when, load_int, store_int, elem}
use rmarace_bench.TestCase.{TestCase, test, racy, quiet}
use rmarace_bench.Mpi.Call.{Call, mpi}
use rmarace_bench.Mpi.Boilerplate.{value, win, win_base, prologue, epilogue}

-- MPIRMA/sync/013-MPI-sync-lockall-flushall-remote-no.c
unfoldable pub lockall_flushall_remote_no : TestCase Call
unfolding prologue epilogue
lockall_flushall_remote_no =
    test "MPIRMA/sync/013-MPI-sync-lockall-flushall-remote-no.c" (quiet 2) 2 λ rank size. do
      prologue 25 2 rank size
      mpi 49 (Call.win_lock_all 0 win)
      mpi 50 Call.barrier
      when (rank == 0) do
        store_int 53 value 1
        mpi 54 (Call.put value 1 int 1 0 1 int win)
        mpi 55 (Call.win_flush_all win)
        mpi 56 Call.barrier
      when (rank == 1) do mpi 60 Call.barrier; load_int 61 (elem win_base 0)
      mpi 64 (Call.win_unlock_all win)
      mpi 65 Call.barrier
      epilogue 67

-- MPIRMA/sync/014-MPI-sync-lockall-flushall-remote-yes.c
unfoldable pub lockall_flushall_remote_yes : TestCase Call
unfolding prologue epilogue
lockall_flushall_remote_yes =
    test "MPIRMA/sync/014-MPI-sync-lockall-flushall-remote-yes.c"
      (racy remote_race rma_write local_load "MPI_Put" 56 "LOAD" 62 2) 2
      λ rank size. do
        prologue 26 2 rank size
        mpi 50 (Call.win_lock_all 0 win)
        mpi 51 Call.barrier
        when (rank == 0) do
          store_int 54 value 1
          mpi 56 (Call.put value 1 int 1 0 1 int win)
          mpi 57 (Call.win_flush_all win)
        when (rank == 1) do load_int 62 (elem win_base 0)
        mpi 65 (Call.win_unlock_all win)
        mpi 66 Call.barrier
        epilogue 68

-- MPIRMA/sync/015-MPI-sync-lockall-barrier-remote-no.c
unfoldable pub lockall_barrier_remote_no : TestCase Call
unfolding prologue epilogue
lockall_barrier_remote_no =
    test "MPIRMA/sync/015-MPI-sync-lockall-barrier-remote-no.c" (quiet 2) 2 λ rank size. do
      prologue 25 2 rank size
      mpi 49 Call.barrier
      mpi 50 (Call.win_lock_all 0 win)
      when (rank == 0) do store_int 53 value 1; mpi 54 (Call.put value 1 int 1 0 1 int win)
      mpi 57 (Call.win_unlock_all win)
      mpi 58 Call.barrier
      when (rank == 1) do load_int 61 (elem win_base 0)
      epilogue 64

-- MPIRMA/sync/016-MPI-sync-lockall-barrier-remote-yes.c
unfoldable pub lockall_barrier_remote_yes : TestCase Call
unfolding prologue epilogue
lockall_barrier_remote_yes =
    test "MPIRMA/sync/016-MPI-sync-lockall-barrier-remote-yes.c"
      (racy remote_race rma_write local_load "MPI_Put" 56 "LOAD" 63 2) 2
      λ rank size. do
        prologue 26 2 rank size
        mpi 50 Call.barrier
        mpi 51 (Call.win_lock_all 0 win)
        when (rank == 0) do store_int 54 value 1; mpi 56 (Call.put value 1 int 1 0 1 int win)
        mpi 59 (Call.win_unlock_all win)
        when (rank == 1) do load_int 63 (elem win_base 0)
        mpi 66 Call.barrier
        epilogue 68

-- MPIRMA/sync/017-MPI-sync-lockall-remote-yes.c
unfoldable pub lockall_remote_yes : TestCase Call
unfolding prologue epilogue
lockall_remote_yes =
    test "MPIRMA/sync/017-MPI-sync-lockall-remote-yes.c"
      (racy remote_race rma_write local_load "MPI_Put" 56 "LOAD" 61 2) 2
      λ rank size. do
        prologue 26 2 rank size
        mpi 50 Call.barrier
        mpi 51 (Call.win_lock_all 0 win)
        when (rank == 0) do store_int 54 value 1; mpi 56 (Call.put value 1 int 1 0 1 int win)
        when (rank == 1) do load_int 61 (elem win_base 0)
        mpi 64 (Call.win_unlock_all win)
        mpi 65 Call.barrier
        epilogue 67

abbrev pub lock_all_tests : List (TestCase Call)
lock_all_tests =
    lockall_flushall_remote_no ∷ lockall_flushall_remote_yes ∷ lockall_barrier_remote_no
    ∷ lockall_barrier_remote_yes ∷ lockall_remote_yes ∷ []
