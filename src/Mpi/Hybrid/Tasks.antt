-- ===== src/Mpi/Hybrid/Tasks.antt =====
-- #pragma omp task: tests of MPIRMA/hybrid.
use rmarace_bench.Base.{List, [], ◌∷◌, true, ◌==◌}
use rmarace_bench.Race.Access.{int}
use rmarace_bench.Race.Label.{local_race, remote_race, local_load, rma_read, rma_write}
use rmarace_bench.Program.{◌>>◌, when, load_int, store_int, elem}
use rmarace_bench.Threads.Constructs.{team, single, task, my_signal, my_wait}
use rmarace_bench.TestCase.{TestCase, test, racy, quiet}
use rmarace_bench.Mpi.Call.{lock_exclusive, Call, mpi}
use rmarace_bench.Mpi.Boilerplate.{value, win, win_base, threaded_prologue, epilogue}

-- MPIRMA/hybrid/009-MPI-hybrid-task-local-yes.c
unfoldable pub task_local_yes : TestCase Call
unfolding threaded_prologue epilogue
task_local_yes =
    test "MPIRMA/hybrid/009-MPI-hybrid-task-local-yes.c"
      (racy local_race rma_read local_load "MPI_Get" 85 "LOAD" 92 2) 2
      λ rank size. do
        threaded_prologue true 43 2 rank size
        mpi 72 Call.barrier
        when (rank == 0) do
          team 76 (
              single (
                task 80
                  (my_signal 82 "flag"
                    >> mpi 83 (Call.win_lock lock_exclusive 1 0 win)
                    >> mpi 85 (Call.get (elem win_base 0) 1 int 1 0 1 int win)
                    >> mpi 86 (Call.win_unlock 1 win))
                  (my_wait 90 "flag" >> load_int 92 (elem win_base 0))))
          mpi 95 Call.barrier
        when (rank == 1) do mpi 99 Call.barrier; load_int 100 (elem win_base 0)
        epilogue 103

-- MPIRMA/hybrid/010-MPI-hybrid-task-local-no.c
unfoldable pub task_local_no : TestCase Call
unfolding threaded_prologue epilogue
task_local_no = test "MPIRMA/hybrid/010-MPI-hybrid-task-local-no.c" (quiet 2) 2 λ rank size. do
  threaded_prologue true 41 2 rank size
  mpi 70 Call.barrier
  when (rank == 0) do
    team 74 (
        single (
          task 78
            (my_signal 80 "flag"
              >> mpi 81 (Call.win_lock lock_exclusive 1 0 win)
              >> mpi 82 (Call.get (elem win_base 0) 1 int 1 0 1 int win)
              >> mpi 83 (Call.win_unlock 1 win))
            (my_wait 87 "flag")
          >> load_int 90 (elem win_base 0)))
    mpi 93 Call.barrier
  when (rank == 1) do mpi 97 Call.barrier; load_int 98 (elem win_base 0)
  epilogue 101

-- MPIRMA/hybrid/015-MPI-hybrid-task-remote-yes.c
unfoldable pub task_remote_yes : TestCase Call
unfolding threaded_prologue epilogue
task_remote_yes =
    test "MPIRMA/hybrid/015-MPI-hybrid-task-remote-yes.c"
      (racy remote_race rma_write local_load "MPI_Put" 78 "LOAD" 98 2) 2
      λ rank size. do
        threaded_prologue true 43 2 rank size
        mpi 72 Call.barrier
        when (rank == 0) do
          mpi 75 (Call.win_lock lock_exclusive 1 0 win)
          store_int 76 value 42
          mpi 78 (Call.put value 1 int 1 0 1 int win)
          mpi 79 (Call.win_unlock 1 win)
          mpi 80 Call.barrier
        when (rank == 1) do
          team 85 (
              single (
                task 89 (my_signal 91 "flag" >> mpi 92 Call.barrier)
                  (my_wait 96 "flag" >> load_int 98 (elem win_base 0))))
        epilogue 103

-- MPIRMA/hybrid/016-MPI-hybrid-task-remote-no.c
unfoldable pub task_remote_no : TestCase Call
unfolding threaded_prologue epilogue
task_remote_no = test "MPIRMA/hybrid/016-MPI-hybrid-task-remote-no.c" (quiet 2) 2 λ rank size. do
  threaded_prologue true 41 2 rank size
  mpi 70 Call.barrier
  when (rank == 0) do
    mpi 73 (Call.win_lock lock_exclusive 1 0 win)
    store_int 74 value 42
    mpi 75 (Call.put value 1 int 1 0 1 int win)
    mpi 76 (Call.win_unlock 1 win)
    mpi 77 Call.barrier
  when (rank == 1) do
    team 82 (
        single (
          task 86 (my_signal 88 "flag" >> mpi 89 Call.barrier) (my_wait 93 "flag")
          >> load_int 95 (elem win_base 0)))
  epilogue 100

abbrev pub hybrid_task_tests : List (TestCase Call)
hybrid_task_tests = task_local_no ∷ task_remote_yes ∷ task_remote_no ∷ []
