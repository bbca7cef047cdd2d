-- ===== src/Mpi/Hybrid/Loops.antt =====
-- #pragma omp for: tests of MPIRMA/hybrid.
use rmarace_bench.Base.{List, [], ◌∷◌, true, not, ◌==◌}
use rmarace_bench.Race.Access.{int}
use rmarace_bench.Race.Label.{local_race, remote_race, local_load, rma_read, rma_write}
use rmarace_bench.Program.{◌>>◌, when, load_int, store_int, elem}
use rmarace_bench.Threads.Constructs.{team, for_static, for_ordered}
use rmarace_bench.TestCase.{TestCase, test, racy, quiet}
use rmarace_bench.Mpi.Call.{lock_exclusive, Call, mpi}
use rmarace_bench.Mpi.Boilerplate.{value, win, win_base, threaded_prologue, epilogue}

-- MPIRMA/hybrid/005-MPI-hybrid-ordered-local-no.c
unfoldable pub ordered_local_no : TestCase Call
unfolding threaded_prologue epilogue
ordered_local_no = test "MPIRMA/hybrid/005-MPI-hybrid-ordered-local-no.c" (quiet 2) 2 λ rank size.
    do
      threaded_prologue true 24 2 rank size
      mpi 53 Call.barrier
      when (rank == 0) do
        team 56 (
            for_ordered (λ i.
              when (i == 0) (
                mpi 62 (Call.win_lock lock_exclusive 1 0 win)
                >> mpi 63 (Call.get (elem win_base 0) 1 int 1 0 1 int win)
                >> mpi 64 (Call.win_unlock 1 win))
              >> when (not (i == 0)) (load_int 66 (elem win_base 0))))
        mpi 70 Call.barrier
      when (rank == 1) do mpi 74 Call.barrier; load_int 75 (elem win_base 0)
      epilogue 78

-- MPIRMA/hybrid/006-MPI-hybrid-for-local-yes.c
unfoldable pub for_local_yes : TestCase Call
unfolding threaded_prologue epilogue
for_local_yes =
    test "MPIRMA/hybrid/006-MPI-hybrid-for-local-yes.c"
      (racy local_race rma_read local_load "MPI_Get" 65 "LOAD" 69 2) 2
      λ rank size. do
        threaded_prologue true 26 2 rank size
        mpi 55 Call.barrier
        when (rank == 0) do
          team 58 (
              for_static 60 (λ i.
                when (i == 0) (
                  mpi 63 (Call.win_lock lock_exclusive 1 0 win)
                  >> mpi 65 (Call.get (elem win_base 0) 1 int 1 0 1 int win)
                  >> mpi 66 (Call.win_unlock 1 win))
                >> when (not (i == 0)) (load_int 69 (elem win_base 0))))
          mpi 73 Call.barrier
        when (rank == 1) do mpi 77 Call.barrier; load_int 78 (elem win_base 0)
        epilogue 81

-- MPIRMA/hybrid/019-MPI-hybrid-ordered-remote-no.c
unfoldable pub ordered_remote_no : TestCase Call
unfolding threaded_prologue epilogue
ordered_remote_no = test "MPIRMA/hybrid/019-MPI-hybrid-ordered-remote-no.c" (quiet 2) 2 λ rank size.
    do
      threaded_prologue true 24 2 rank size
      mpi 53 Call.barrier
      when (rank == 0) do
        mpi 56 (Call.win_lock lock_exclusive 1 0 win)
        store_int 57 value 42
        mpi 59 (Call.put value 1 int 1 0 1 int win)
        mpi 60 (Call.win_unlock 1 win)
        mpi 61 Call.barrier
      when (rank == 1) do
        team 65 (
            for_ordered (λ i.
              when (i == 0) (mpi 71 Call.barrier)
              >> when (not (i == 0)) (load_int 74 (elem win_base 0))))
      epilogue 80

-- MPIRMA/hybrid/020-MPI-hybrid-for-remote-yes.c
unfoldable pub for_remote_yes : TestCase Call
unfolding threaded_prologue epilogue
for_remote_yes =
    test "MPIRMA/hybrid/020-MPI-hybrid-for-remote-yes.c"
      (racy remote_race rma_write local_load "MPI_Put" 61 "LOAD" 75 2) 2
      λ rank size. do
        threaded_prologue true 26 2 rank size
        mpi 55 Call.barrier
        when (rank == 0) do
          mpi 58 (Call.win_lock lock_exclusive 1 0 win)
          store_int 59 value 42
          mpi 61 (Call.put value 1 int 1 0 1 int win)
          mpi 62 (Call.win_unlock 1 win)
          mpi 63 Call.barrier
        when (rank == 1) do
          team 67 (
              for_static 69 (λ i.
                when (i == 0) (mpi 72 Call.barrier)
                >> when (not (i == 0)) (load_int 75 (elem win_base 0))))
        epilogue 81

abbrev pub hybrid_loop_tests : List (TestCase Call)
hybrid_loop_tests = ordered_local_no ∷ ordered_remote_no ∷ for_remote_yes ∷ []
