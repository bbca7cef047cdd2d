-- ===== src/Mpi/Hybrid/Single.antt =====
-- #pragma omp master and single: tests of MPIRMA/hybrid.
use rmarace_bench.Base.{List, [], ◌∷◌, true, ◌==◌}
use rmarace_bench.Race.Access.{int}
use rmarace_bench.Race.Label.{local_race, remote_race, local_load, rma_read, rma_write}
use rmarace_bench.Program.{◌>>◌, when, load_int, store_int, elem}
use rmarace_bench.Threads.Constructs.{parallel, team, after_barrier, master, single_nowait, single}
use rmarace_bench.TestCase.{TestCase, test, racy, quiet}
use rmarace_bench.Mpi.Call.{lock_exclusive, Call, mpi}
use rmarace_bench.Mpi.Boilerplate.{value, win, win_base, threaded_prologue, epilogue}

-- MPIRMA/hybrid/001-MPI-hybrid-master-local-yes.c
unfoldable pub master_local_yes : TestCase Call
unfolding threaded_prologue epilogue
master_local_yes =
    test "MPIRMA/hybrid/001-MPI-hybrid-master-local-yes.c"
      (racy local_race rma_read local_load "MPI_Get" 64 "LOAD" 69 2) 2
      λ rank size. do
        threaded_prologue true 26 2 rank size
        mpi 55 Call.barrier
        when (rank == 0) do
          parallel 58 λ thread.
              master thread (
                mpi 62 (Call.win_lock lock_exclusive 1 0 win)
                >> mpi 64 (Call.get (elem win_base 0) 1 int 1 0 1 int win)
                >> mpi 65 (Call.win_unlock 1 win))
              >> load_int 69 (elem win_base 0)
          mpi 71 Call.barrier
        when (rank == 1) do mpi 75 Call.barrier; load_int 76 (elem win_base 0)
        epilogue 79

-- MPIRMA/hybrid/002-MPI-hybrid-master-local-no.c
unfoldable pub master_local_no : TestCase Call
unfolding threaded_prologue epilogue
master_local_no = test "MPIRMA/hybrid/002-MPI-hybrid-master-local-no.c" (quiet 2) 2 λ rank size. do
  threaded_prologue true 24 2 rank size
  mpi 53 Call.barrier
  when (rank == 0) do
    parallel 56 λ thread. master thread (
        mpi 60 (Call.win_lock lock_exclusive 1 0 win)
        >> mpi 61 (Call.get (elem win_base 0) 1 int 1 0 1 int win)
        >> mpi 62 (Call.win_unlock 1 win))
    after_barrier 64 λ thread. load_int 65 (elem win_base 0)
    mpi 67 Call.barrier
  when (rank == 1) do mpi 71 Call.barrier; load_int 72 (elem win_base 0)
  epilogue 75

-- MPIRMA/hybrid/003-MPI-hybrid-single-local-yes.c
unfoldable pub single_local_yes : TestCase Call
unfolding threaded_prologue epilogue
single_local_yes =
    test "MPIRMA/hybrid/003-MPI-hybrid-single-local-yes.c"
      (racy local_race rma_read local_load "MPI_Get" 64 "LOAD" 69 2) 2
      λ rank size. do
        threaded_prologue true 26 2 rank size
        mpi 55 Call.barrier
        when (rank == 0) do
          parallel 58 λ thread.
              single_nowait thread (
                mpi 62 (Call.win_lock lock_exclusive 1 0 win)
                >> mpi 64 (Call.get (elem win_base 0) 1 int 1 0 1 int win)
                >> mpi 65 (Call.win_unlock 1 win))
              >> load_int 69 (elem win_base 0)
          mpi 71 Call.barrier
        when (rank == 1) do mpi 75 Call.barrier; load_int 76 (elem win_base 0)
        epilogue 79

-- MPIRMA/hybrid/004-MPI-hybrid-single-local-no.c
unfoldable pub single_local_no : TestCase Call
unfolding threaded_prologue epilogue
single_local_no = test "MPIRMA/hybrid/004-MPI-hybrid-single-local-no.c" (quiet 2) 2 λ rank size. do
  threaded_prologue true 24 2 rank size
  mpi 53 Call.barrier
  when (rank == 0) do
    team 56 (
        single (
          mpi 60 (Call.win_lock lock_exclusive 1 0 win)
          >> mpi 61 (Call.get (elem win_base 0) 1 int 1 0 1 int win)
          >> mpi 62 (Call.win_unlock 1 win))
        >> (after_barrier 58 λ thread. load_int 64 (elem win_base 0)))
    mpi 66 Call.barrier
  when (rank == 1) do mpi 70 Call.barrier; load_int 71 (elem win_base 0)
  epilogue 74

-- MPIRMA/hybrid/011-MPI-hybrid-master-remote-yes.c
unfoldable pub master_remote_yes : TestCase Call
unfolding threaded_prologue epilogue
master_remote_yes =
    test "MPIRMA/hybrid/011-MPI-hybrid-master-remote-yes.c"
      (racy remote_race rma_write local_load "MPI_Put" 61 "LOAD" 74 2) 2
      λ rank size. do
        threaded_prologue true 26 2 rank size
        mpi 55 Call.barrier
        when (rank == 0) do
          mpi 58 (Call.win_lock lock_exclusive 1 0 win)
          store_int 59 value 42
          mpi 61 (Call.put value 1 int 1 0 1 int win)
          mpi 62 (Call.win_unlock 1 win)
          mpi 63 Call.barrier
        when (rank == 1) do
          parallel 67 λ thread. master thread (mpi 71 Call.barrier) >> load_int 74 (elem win_base 0)
        epilogue 78

-- MPIRMA/hybrid/012-MPI-hybrid-master-remote-no.c
unfoldable pub master_remote_no : TestCase Call
unfolding threaded_prologue epilogue
master_remote_no = test "MPIRMA/hybrid/012-MPI-hybrid-master-remote-no.c" (quiet 2) 2 λ rank size.
    do
      threaded_prologue true 24 2 rank size
      mpi 53 Call.barrier
      when (rank == 0) do
        mpi 56 (Call.win_lock lock_exclusive 1 0 win)
        store_int 57 value 42
        mpi 58 (Call.put value 1 int 1 0 1 int win)
        mpi 59 (Call.win_unlock 1 win)
        mpi 60 Call.barrier
      when (rank == 1) do
        parallel 64 λ thread. master thread (mpi 68 Call.barrier)
        after_barrier 70 λ thread. load_int 71 (elem win_base 0)
      epilogue 75

-- MPIRMA/hybrid/013-MPI-hybrid-single-remote-yes.c
unfoldable pub single_remote_yes : TestCase Call
unfolding threaded_prologue epilogue
single_remote_yes =
    test "MPIRMA/hybrid/013-MPI-hybrid-single-remote-yes.c"
      (racy remote_race rma_write local_load "MPI_Put" 61 "LOAD" 74 2) 2
      λ rank size. do
        threaded_prologue true 26 2 rank size
        mpi 55 Call.barrier
        when (rank == 0) do
          mpi 58 (Call.win_lock lock_exclusive 1 0 win)
          store_int 59 value 42
          mpi 61 (Call.put value 1 int 1 0 1 int win)
          mpi 62 (Call.win_unlock 1 win)
          mpi 63 Call.barrier
        when (rank == 1) do
          parallel 67
              λ thread. single_nowait thread (mpi 71 Call.barrier) >> load_int 74 (elem win_base 0)
        epilogue 78

-- MPIRMA/hybrid/014-MPI-hybrid-single-remote-no.c
unfoldable pub single_remote_no : TestCase Call
unfolding threaded_prologue epilogue
single_remote_no = test "MPIRMA/hybrid/014-MPI-hybrid-single-remote-no.c" (quiet 2) 2 λ rank size.
    do
      threaded_prologue true 24 2 rank size
      mpi 53 Call.barrier
      when (rank == 0) do
        mpi 56 (Call.win_lock lock_exclusive 1 0 win)
        store_int 57 value 42
        mpi 58 (Call.put value 1 int 1 0 1 int win)
        mpi 59 (Call.win_unlock 1 win)
        mpi 60 Call.barrier
      when (rank == 1) do
        team 64 (
            single (mpi 68 Call.barrier)
            >> (after_barrier 66 λ thread. load_int 70 (elem win_base 0)))
      epilogue 74

abbrev pub hybrid_single_tests : List (TestCase Call)
hybrid_single_tests =
    master_local_no ∷ single_local_no ∷ master_remote_yes ∷ master_remote_no ∷ single_remote_yes
    ∷ single_remote_no ∷ []
