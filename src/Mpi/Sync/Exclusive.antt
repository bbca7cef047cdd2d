-- ===== src/Mpi/Sync/Exclusive.antt =====
-- Exclusive locks: tests of MPIRMA/sync.
use rmarace_bench.Base.{◌*◌, List, [], ◌∷◌, not, ◌==◌}
use rmarace_bench.Race.Access.{int, size_of}
use rmarace_bench.Race.Label.{remote_race, local_load, rma_write}
use rmarace_bench.Program.{◌>>◌, leave, when, for_range, load_int, store_int, addr, elem}
use rmarace_bench.TestCase.{TestCase, test, racy, quiet}
use rmarace_bench.Mpi.Call.{lock_exclusive, Call, mpi}
use rmarace_bench.Mpi.Boilerplate.{
  value, value2, token, win, win_base, win_size, prologue, epilogue,
}

-- MPIRMA/sync/027-MPI-sync-lock-exclusive-remote-no.c
unfoldable pub lock_exclusive_remote_no : TestCase Call
unfolding prologue epilogue
lock_exclusive_remote_no =
    test "MPIRMA/sync/027-MPI-sync-lock-exclusive-remote-no.c" (quiet 2) 2 λ rank size. do
      prologue 25 2 rank size
      mpi 49 Call.barrier
      when (rank == 0) do
        mpi 52 (Call.win_lock lock_exclusive 1 0 win)
        mpi 54 (Call.put value 1 int 1 0 1 int win)
        mpi 55 (Call.win_unlock 1 win)
      when (rank == 1) do
        mpi 59 (Call.win_lock lock_exclusive 1 0 win)
        load_int 61 (elem win_base 0)
        mpi 62 (Call.win_unlock 1 win)
      mpi 65 Call.barrier
      epilogue 67

-- MPIRMA/sync/028-MPI-sync-lock-exclusive-3procs-remote-no.c
unfoldable pub lock_exclusive_3procs_remote_no : TestCase Call
unfolding prologue epilogue
lock_exclusive_3procs_remote_no =
    test "MPIRMA/sync/028-MPI-sync-lock-exclusive-3procs-remote-no.c" (quiet 3) 3 λ rank size. do
      prologue 25 3 rank size
      mpi 49 Call.barrier
      when (rank == 0) do
        store_int 52 value 1
        mpi 53 (Call.win_lock lock_exclusive 1 0 win)
        mpi 55 (Call.put value 1 int 1 0 1 int win)
        mpi 56 (Call.win_unlock 1 win)
      when (rank == 2) do
        mpi 60 (Call.win_lock lock_exclusive 1 0 win)
        mpi 62 (Call.get value 1 int 1 0 1 int win)
        mpi 63 (Call.win_unlock 1 win)
      mpi 66 Call.barrier
      epilogue 68

-- MPIRMA/sync/029-MPI-sync-lock-exclusive-remote-yes.c, whose start of `main` allocates two windows
unfoldable pub lock_exclusive_remote_yes : TestCase Call
unfolding epilogue
lock_exclusive_remote_yes =
    test "MPIRMA/sync/029-MPI-sync-lock-exclusive-remote-yes.c"
      (racy remote_race rma_write local_load "MPI_Put" 62 "LOAD" 75 2) 2
      λ rank size. do
        store_int 32 value 1
        store_int 32 value2 2
        store_int 35 token 42
        mpi 37 Call.init
        mpi 38 Call.comm_rank
        mpi 39 Call.comm_size
        when (not (size == 2)) (leave 43 Call.abort)
        mpi 49 (Call.win_allocate (win_size * size_of int) (size_of int) win)
        mpi 50 (Call.win_allocate (win_size * size_of int) (size_of int) "win2")
        for_range win_size 0
            (λ i. store_int 53 (elem win_base i) 0 >> store_int 54 (elem (addr "win2") i) 0)
        mpi 57 Call.barrier
        when (rank == 0) do
          mpi 60 (Call.win_lock lock_exclusive 1 0 win)
          mpi 62 (Call.put value 1 int 1 0 1 int win)
          mpi 63 (Call.win_unlock 1 win)
          mpi 65 (Call.sleep 1)
          mpi 68 (Call.win_lock lock_exclusive 1 0 "win2")
          mpi 69 (Call.win_unlock 1 "win2")
        when (not (rank == 0)) do
          mpi 72 (Call.win_lock lock_exclusive 1 0 "win2")
          mpi 73 (Call.win_unlock 1 "win2")
          load_int 75 (elem win_base 0)
        mpi 78 (Call.win_free "win2")
        epilogue 80

abbrev pub exclusive_tests : List (TestCase Call)
exclusive_tests =
    lock_exclusive_remote_no ∷ lock_exclusive_3procs_remote_no ∷ lock_exclusive_remote_yes ∷ []
