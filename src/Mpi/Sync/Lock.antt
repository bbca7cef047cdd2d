-- ===== src/Mpi/Sync/Lock.antt =====
-- Local completion in passive target epochs: tests of MPIRMA/sync.
use rmarace_bench.Base.{List, [], ◌∷◌, ◌==◌}
use rmarace_bench.Race.Access.{int}
use rmarace_bench.Race.Label.{local_race, buffer_write, local_load}
use rmarace_bench.Program.{◌>>◌, when, load_int}
use rmarace_bench.TestCase.{TestCase, test, racy, quiet}
use rmarace_bench.Mpi.Call.{lock_shared, Call, mpi}
use rmarace_bench.Mpi.Boilerplate.{value, win, prologue, epilogue}

-- MPIRMA/sync/003-MPI-sync-lock-local-yes.c
unfoldable pub lock_local_yes : TestCase Call
unfolding prologue epilogue
lock_local_yes =
    test "MPIRMA/sync/003-MPI-sync-lock-local-yes.c"
      (racy local_race buffer_write local_load "MPI_Get" 55 "LOAD" 57 2) 2
      λ rank size. do
        prologue 26 2 rank size
        mpi 50 Call.barrier
        when (rank == 0) do
          mpi 53 (Call.win_lock lock_shared 1 0 win)
          mpi 55 (Call.get value 1 int 1 0 1 int win)
          load_int 57 value
          mpi 58 (Call.win_unlock 1 win)
        epilogue 61

-- MPIRMA/sync/004-MPI-sync-lock-local-no.c
unfoldable pub lock_local_no : TestCase Call
unfolding prologue epilogue
lock_local_no = test "MPIRMA/sync/004-MPI-sync-lock-local-no.c" (quiet 2) 2 λ rank size. do
  prologue 25 2 rank size
  mpi 49 Call.barrier
  when (rank == 0) do
    mpi 52 (Call.win_lock lock_shared 1 0 win)
    mpi 53 (Call.get value 1 int 1 0 1 int win)
    mpi 54 (Call.win_unlock 1 win)
    load_int 55 value
  epilogue 58

-- MPIRMA/sync/005-MPI-sync-lock-flush-local-yes.c
unfoldable pub lock_flush_local_yes : TestCase Call
unfolding prologue epilogue
lock_flush_local_yes =
    test "MPIRMA/sync/005-MPI-sync-lock-flush-local-yes.c"
      (racy local_race buffer_write local_load "MPI_Get" 56 "LOAD" 58 2) 2
      λ rank size. do
        prologue 26 2 rank size
        mpi 50 Call.barrier
        when (rank == 0) do
          mpi 53 (Call.win_lock lock_shared 1 0 win)
          mpi 56 (Call.get value 1 int 1 0 1 int win)
          load_int 58 value
          mpi 59 (Call.win_flush 1 win)
          mpi 60 (Call.win_unlock 1 win)
        epilogue 63

-- MPIRMA/sync/006-MPI-sync-lock-flush-local-no.c
unfoldable pub lock_flush_local_no : TestCase Call
unfolding prologue epilogue
lock_flush_local_no = test "MPIRMA/sync/006-MPI-sync-lock-flush-local-no.c" (quiet 2) 2 λ rank size.
    do
      prologue 25 2 rank size
      mpi 49 Call.barrier
      when (rank == 0) do
        mpi 52 (Call.win_lock lock_shared 1 0 win)
        mpi 53 (Call.get value 1 int 1 0 1 int win)
        mpi 54 (Call.win_flush 1 win)
        load_int 55 value
        mpi 56 (Call.win_unlock 1 win)
      epilogue 59

-- MPIRMA/sync/007-MPI-sync-lockall-flushlocalall-local-yes.c
unfoldable pub lockall_flushlocalall_local_yes : TestCase Call
unfolding prologue epilogue
lockall_flushlocalall_local_yes =
    test "MPIRMA/sync/007-MPI-sync-lockall-flushlocalall-local-yes.c"
      (racy local_race buffer_write local_load "MPI_Get" 57 "LOAD" 59 2) 2
      λ rank size. do
        prologue 26 2 rank size
        mpi 50 Call.barrier
        mpi 52 (Call.win_lock_all 0 win)
        when (rank == 0) do
          mpi 57 (Call.get value 1 int 1 0 1 int win)
          load_int 59 value
          mpi 60 (Call.win_flush_local_all win)
        mpi 63 (Call.win_unlock_all win)
        epilogue 65

-- MPIRMA/sync/008-MPI-sync-lockall-flushlocalall-local-no.c
unfoldable pub lockall_flushlocalall_local_no : TestCase Call
unfolding prologue epilogue
lockall_flushlocalall_local_no =
    test "MPIRMA/sync/008-MPI-sync-lockall-flushlocalall-local-no.c" (quiet 2) 2 λ rank size. do
      prologue 25 2 rank size
      mpi 49 Call.barrier
      mpi 51 (Call.win_lock_all 0 win)
      when (rank == 0) do
        mpi 54 (Call.get value 1 int 1 0 1 int win)
        mpi 55 (Call.win_flush_local_all win)
        load_int 56 value
      mpi 59 (Call.win_unlock_all win)
      epilogue 61

abbrev pub lock_tests : List (TestCase Call)
lock_tests =
    lock_local_yes ∷ lock_local_no ∷ lock_flush_local_yes ∷ lock_flush_local_no
    ∷ lockall_flushlocalall_local_yes ∷ lockall_flushlocalall_local_no ∷ []
