-- ===== src/Gaspi/Hybrid/Tasks.antt =====
-- #pragma omp task: tests of GASPI/hybrid.
use rmarace_bench.Base.{List, [], ◌∷◌, true, ◌==◌}
use rmarace_bench.Race.Access.{int, size_of}
use rmarace_bench.Race.Label.{local_race, remote_race, local_load, rma_read}
use rmarace_bench.Program.{◌>>◌, when, load_int, store_int, elem}
use rmarace_bench.Threads.Constructs.{team, single, task, my_signal, my_wait}
use rmarace_bench.TestCase.{TestCase, test, racy, quiet}
use rmarace_bench.Gaspi.Call.{place, Call, gaspi}
use rmarace_bench.Gaspi.Boilerplate.{
  loc_seg_id, remote_seg_id, queue_id, localbuf, remote_data, threaded_prologue, epilogue,
}

-- GASPI/hybrid/009-GASPI-hybrid-task-local-no.c
unfoldable pub task_local_no : TestCase Call
unfolding threaded_prologue epilogue
task_local_no = test "GASPI/hybrid/009-GASPI-hybrid-task-local-no.c" (quiet 2) 2 λ rank num. do
  threaded_prologue true 42 2 num
  gaspi 80 Call.barrier
  when (rank == 0) do
    team 84 (
        single (
          task 88
            (my_signal 90 "flag"
              >> gaspi 91
                  (Call.read (place loc_seg_id 0) 1 (place remote_seg_id 0) (size_of int) queue_id)
              >> gaspi 92 (Call.wait queue_id))
            (my_wait 96 "flag")
          >> load_int 99 (elem localbuf 0)))
    gaspi 102 Call.barrier
  when (rank == 1) do gaspi 106 Call.barrier; load_int 107 (elem remote_data 0)
  epilogue 110 rank num

-- GASPI/hybrid/010-GASPI-hybrid-task-local-yes.c
unfoldable pub task_local_yes : TestCase Call
unfolding threaded_prologue epilogue
task_local_yes =
    test "GASPI/hybrid/010-GASPI-hybrid-task-local-yes.c"
      (racy local_race rma_read local_load "gaspi_read" 94 "STORE" 101 2) 2
      λ rank num. do
        threaded_prologue true 44 2 num
        gaspi 82 Call.barrier
        when (rank == 0) do
          team 86 (
              single (
                task 90
                  (my_signal 92 "flag"
                    >> gaspi 94 (
                        Call.read (place loc_seg_id 0) 1 (place remote_seg_id 0) (size_of int)
                          queue_id)
                    >> gaspi 95 (Call.wait queue_id))
                  (my_wait 99 "flag" >> load_int 101 (elem localbuf 0))))
          gaspi 104 Call.barrier
        when (rank == 1) do gaspi 108 Call.barrier; load_int 109 (elem remote_data 0)
        epilogue 112 rank num

-- GASPI/hybrid/019-GASPI-hybrid-task-remote-no.c
unfoldable pub task_remote_no : TestCase Call
unfolding threaded_prologue epilogue
task_remote_no = test "GASPI/hybrid/019-GASPI-hybrid-task-remote-no.c" (quiet 2) 2 λ rank num. do
  threaded_prologue true 42 2 num
  gaspi 80 Call.barrier
  when (rank == 0) do
    gaspi 83 (Call.read (place loc_seg_id 0) 1 (place remote_seg_id 0) (size_of int) queue_id)
    gaspi 84 (Call.wait queue_id)
    gaspi 85 Call.barrier
  when (rank == 1) do
    team 90 (
        single (
          task 94 (my_signal 96 "flag" >> gaspi 97 Call.barrier) (my_wait 101 "flag")
          >> store_int 103 (elem remote_data 0) 42))
  epilogue 108 rank num

-- GASPI/hybrid/020-GASPI-hybrid-task-remote-yes.c
unfoldable pub task_remote_yes : TestCase Call
unfolding threaded_prologue epilogue
task_remote_yes =
    test "GASPI/hybrid/020-GASPI-hybrid-task-remote-yes.c"
      (racy remote_race rma_read local_load "gaspi_read" 86 "STORE" 107 2) 2
      λ rank num. do
        threaded_prologue true 44 2 num
        gaspi 82 Call.barrier
        when (rank == 0) do
          gaspi 86 (Call.read (place loc_seg_id 0) 1 (place remote_seg_id 0) (size_of int) queue_id)
          gaspi 87 (Call.wait queue_id)
          gaspi 88 Call.barrier
        when (rank == 1) do
          team 93 (
              single (
                task 97 (my_signal 99 "flag" >> gaspi 100 Call.barrier)
                  (my_wait 104 "flag" >> store_int 107 (elem remote_data 0) 42)))
        epilogue 112 rank num

abbrev pub hybrid_task_tests : List (TestCase Call)
hybrid_task_tests = task_local_no ∷ task_remote_no ∷ []
