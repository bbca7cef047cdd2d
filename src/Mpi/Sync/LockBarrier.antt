-- ===== src/Mpi/Sync/LockBarrier.antt =====
-- Shared locks and barriers: tests of MPIRMA/sync.
use rmarace_bench.Base.{List, [], ◌∷◌, ◌==◌}
use rmarace_bench.Race.Access.{int}
use rmarace_bench.Race.Label.{
  local_race, remote_race, buffer_read, buffer_write, local_load, rma_read, rma_write,
}
use rmarace_bench.Program.{◌>>◌, when, load_int, store_int, elem}
use rmarace_bench.TestCase.{TestCase, test, racy, quiet}
use rmarace_bench.Mpi.Call.{lock_shared, Call, mpi}
use rmarace_bench.Mpi.Boilerplate.{value, value2, win, win_base, prologue, epilogue}

-- MPIRMA/sync/020-MPI-sync-lock-barrier-nonconsistent-remote-yes.c
unfoldable pub lock_barrier_nonconsistent_remote_yes : TestCase Call
unfolding prologue epilogue
lock_barrier_nonconsistent_remote_yes =
    test "MPIRMA/sync/020-MPI-sync-lock-barrier-nonconsistent-remote-yes.c"
      (racy remote_race rma_write local_load "MPI_Put" 56 "LOAD" 63 2) 2
      λ rank size. do
        prologue 26 2 rank size
        mpi 50 Call.barrier
        when (rank == 0) do
          store_int 53 value 1
          mpi 54 (Call.win_lock lock_shared 1 0 win)
          mpi 56 (Call.put value 1 int 1 0 1 int win)
        mpi 59 Call.barrier
        when (rank == 1) do load_int 63 (elem win_base 0)
        when (rank == 0) do mpi 67 (Call.win_unlock 1 win)
        mpi 70 Call.barrier
        epilogue 72

-- MPIRMA/sync/021-MPI-sync-lock-barrier-remote-yes.c
unfoldable pub lock_barrier_remote_yes : TestCase Call
unfolding prologue epilogue
lock_barrier_remote_yes =
    test "MPIRMA/sync/021-MPI-sync-lock-barrier-remote-yes.c"
      (racy remote_race rma_write local_load "MPI_Put" 56 "LOAD" 62 2) 2
      λ rank size. do
        prologue 26 2 rank size
        mpi 50 Call.barrier
        when (rank == 0) do
          store_int 53 value 1
          mpi 54 (Call.win_lock lock_shared 1 0 win)
          mpi 56 (Call.put value 1 int 1 0 1 int win)
          mpi 57 (Call.win_unlock 1 win)
        when (rank == 1) do load_int 62 (elem win_base 0)
        mpi 65 Call.barrier
        epilogue 67

-- MPIRMA/sync/022-MPI-sync-lock-barrier-remote-no.c
unfoldable pub lock_barrier_remote_no : TestCase Call
unfolding prologue epilogue
lock_barrier_remote_no =
    test "MPIRMA/sync/022-MPI-sync-lock-barrier-remote-no.c" (quiet 2) 2 λ rank size. do
      prologue 25 2 rank size
      mpi 49 Call.barrier
      when (rank == 0) do
        store_int 52 value 1
        mpi 53 (Call.win_lock lock_shared 1 0 win)
        mpi 54 (Call.put value 1 int 1 0 1 int win)
        mpi 55 (Call.win_unlock 1 win)
      mpi 58 Call.barrier
      when (rank == 1) do load_int 61 (elem win_base 0)
      mpi 64 Call.barrier
      epilogue 66

-- MPIRMA/sync/023-MPI-sync-lock-barrier-sameorigin-remote-no.c
unfoldable pub lock_barrier_sameorigin_remote_no : TestCase Call
unfolding prologue epilogue
lock_barrier_sameorigin_remote_no =
    test "MPIRMA/sync/023-MPI-sync-lock-barrier-sameorigin-remote-no.c" (quiet 2) 2 λ rank size. do
      prologue 25 2 rank size
      mpi 49 Call.barrier
      when (rank == 0) do
        store_int 52 value 1
        mpi 53 (Call.win_lock lock_shared 1 0 win)
        mpi 54 (Call.put value 1 int 1 0 1 int win)
        mpi 55 (Call.win_flush 1 win)
        mpi 56 (Call.get value2 1 int 1 0 1 int win)
        mpi 57 (Call.win_unlock 1 win)
      mpi 60 Call.barrier
      epilogue 62

-- MPIRMA/sync/024-MPI-sync-lock-barrier-sameorigin-remote-yes.c
unfoldable pub lock_barrier_sameorigin_remote_yes : TestCase Call
unfolding prologue epilogue
lock_barrier_sameorigin_remote_yes =
    test "MPIRMA/sync/024-MPI-sync-lock-barrier-sameorigin-remote-yes.c"
      (racy remote_race rma_write rma_read "MPI_Put" 56 "MPI_Get" 58 2) 2
      λ rank size. do
        prologue 26 2 rank size
        mpi 50 Call.barrier
        when (rank == 0) do
          store_int 53 value 1
          mpi 54 (Call.win_lock lock_shared 1 0 win)
          mpi 56 (Call.put value 1 int 1 0 1 int win)
          mpi 58 (Call.get value2 1 int 1 0 1 int win)
          mpi 59 (Call.win_unlock 1 win)
        mpi 62 Call.barrier
        when (rank == 1) do load_int 64 (elem win_base 0)
        mpi 67 Call.barrier
        epilogue 69

-- MPIRMA/sync/025-MPI-sync-lock-flushlocal-sameorigin-remote-yes.c
unfoldable pub lock_flushlocal_sameorigin_remote_yes : TestCase Call
unfolding prologue epilogue
lock_flushlocal_sameorigin_remote_yes =
    test "MPIRMA/sync/025-MPI-sync-lock-flushlocal-sameorigin-remote-yes.c"
      (racy local_race buffer_read buffer_write "MPI_Put" 56 "MPI_Get" 59 2) 2
      λ rank size. do
        prologue 26 2 rank size
        mpi 50 Call.barrier
        when (rank == 0) do
          store_int 53 value 1
          mpi 54 (Call.win_lock lock_shared 1 0 win)
          mpi 56 (Call.put value 1 int 1 0 1 int win)
          mpi 57 (Call.win_flush_local 1 win)
          mpi 59 (Call.get value 1 int 1 0 1 int win)
          mpi 60 (Call.win_unlock 1 win)
        mpi 63 Call.barrier
        epilogue 65

-- MPIRMA/sync/026-MPI-sync-lock-flushlocal-sameorigin-remote-no.c
unfoldable pub lock_flushlocal_sameorigin_remote_no : TestCase Call
unfolding prologue epilogue
lock_flushlocal_sameorigin_remote_no =
    test "MPIRMA/sync/026-MPI-sync-lock-flushlocal-sameorigin-remote-no.c" (quiet 2) 2 λ rank size.
      do
        prologue 25 2 rank size
        mpi 49 Call.barrier
        when (rank == 0) do
          mpi 52 (Call.win_lock lock_shared 1 0 win)
          mpi 53 (Call.get value 1 int 1 0 1 int win)
          mpi 54 (Call.win_flush_local 1 win)
          mpi 55 (Call.get value 1 int 1 0 1 int win)
          mpi 56 (Call.win_unlock 1 win)
        mpi 59 Call.barrier
        epilogue 61

abbrev pub lock_barrier_tests : List (TestCase Call)
lock_barrier_tests =
    lock_barrier_nonconsistent_remote_yes ∷ lock_barrier_remote_yes ∷ lock_barrier_remote_no
    ∷ lock_barrier_sameorigin_remote_no ∷ lock_barrier_sameorigin_remote_yes
    ∷ lock_flushlocal_sameorigin_remote_no ∷ []
