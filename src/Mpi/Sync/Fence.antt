-- ===== src/Mpi/Sync/Fence.antt =====
-- Synchronisation by fences: tests of MPIRMA/sync.
use rmarace_bench.Base.{List, [], ◌∷◌, ◌==◌}
use rmarace_bench.Race.Access.{int}
use rmarace_bench.Race.Label.{
  local_race, remote_race, buffer_write, local_load, rma_read, rma_write,
}
use rmarace_bench.Program.{◌>>◌, when, load_int, store_int}
use rmarace_bench.TestCase.{TestCase, test, racy, quiet}
use rmarace_bench.Mpi.Call.{Call, mpi}
use rmarace_bench.Mpi.Boilerplate.{value, win, prologue, epilogue}

-- MPIRMA/sync/001-MPI-sync-fence-local-yes.c
unfoldable pub fence_local_yes : TestCase Call
unfolding prologue epilogue
fence_local_yes =
    test "MPIRMA/sync/001-MPI-sync-fence-local-yes.c"
      (racy local_race buffer_write local_load "MPI_Get" 56 "LOAD" 58 2) 2
      λ rank size. do
        prologue 26 2 rank size
        mpi 50 Call.barrier
        mpi 52 (Call.win_fence 0 win)
        when (rank == 0) do mpi 56 (Call.put value 1 int 1 0 1 int win); store_int 58 value 42
        mpi 60 (Call.win_fence 0 win)
        epilogue 62

-- MPIRMA/sync/002-MPI-sync-fence-local-no.c
unfoldable pub fence_local_no : TestCase Call
unfolding prologue epilogue
fence_local_no = test "MPIRMA/sync/002-MPI-sync-fence-local-no.c" (quiet 2) 2 λ rank size. do
  prologue 25 2 rank size
  mpi 49 Call.barrier
  mpi 51 (Call.win_fence 0 win)
  when (rank == 0) do mpi 53 (Call.put value 1 int 1 0 1 int win)
  mpi 55 (Call.win_fence 0 win)
  when (rank == 0) do load_int 57 value
  mpi 60 (Call.win_fence 0 win)
  epilogue 62

-- MPIRMA/sync/018-MPI-sync-fence-3procs-remote-yes.c
unfoldable pub fence_3procs_remote_yes : TestCase Call
unfolding prologue epilogue
fence_3procs_remote_yes =
    test "MPIRMA/sync/018-MPI-sync-fence-3procs-remote-yes.c"
      (racy remote_race rma_write rma_read "MPI_Put" 55 "MPI_Get" 61 3) 3
      λ rank size. do
        prologue 26 3 rank size
        mpi 50 (Call.win_fence 0 win)
        when (rank == 0) do store_int 53 value 0; mpi 55 (Call.put value 1 int 1 0 1 int win)
        when (rank == 2) do store_int 59 value 2; mpi 61 (Call.get value 1 int 1 0 1 int win)
        mpi 64 (Call.win_fence 0 win)
        epilogue 66

-- MPIRMA/sync/019-MPI-sync-fence-3procs-remote-no.c
unfoldable pub fence_3procs_remote_no : TestCase Call
unfolding prologue epilogue
fence_3procs_remote_no =
    test "MPIRMA/sync/019-MPI-sync-fence-3procs-remote-no.c" (quiet 3) 3 λ rank size. do
      prologue 25 3 rank size
      mpi 49 (Call.win_fence 0 win)
      when (rank == 0) do store_int 52 value 0; mpi 53 (Call.put value 1 int 1 0 1 int win)
      mpi 55 (Call.win_fence 0 win)
      when (rank == 2) do store_int 58 value 2; mpi 59 (Call.get value 1 int 1 0 1 int win)
      mpi 62 (Call.win_fence 0 win)
      epilogue 64

abbrev pub fence_tests : List (TestCase Call)
fence_tests = fence_local_no ∷ fence_3procs_remote_yes ∷ fence_3procs_remote_no ∷ []
