-- ===== src/Shmem/Hybrid/Tasks.antt =====
-- #pragma omp task: tests of SHMEM/hybrid.
use rmarace_bench.Base.{List, [], ◌∷◌, ◌==◌}
use rmarace_bench.Race.Label.{local_race, remote_race, local_load, rma_read, rma_write}
use rmarace_bench.Program.{◌>>◌, when, load_int}
use rmarace_bench.Threads.Constructs.{team, single, task, my_signal, my_wait}
use rmarace_bench.TestCase.{TestCase, test, racy, quiet}
use rmarace_bench.Shmem.Call.{Call, shmem}
use rmarace_bench.Shmem.Boilerplate.{remote, localbuf, prologue, epilogue}

-- SHMEM/hybrid/009-shmem-hybrid-task-local-no.c
unfoldable pub task_local_no : TestCase Call
unfolding prologue epilogue
task_local_no = test "SHMEM/hybrid/009-shmem-hybrid-task-local-no.c" (quiet 2) 2 λ my_pe num_pe. do
  prologue 40 0 2 my_pe num_pe
  when (my_pe == 0) do
    team 57 (
        single (
          task 61
            (my_signal 63 "flag"
              >> shmem 64 (Call.get_nbi_generic localbuf remote 1 1)
              >> shmem 65 Call.quiet)
            (my_wait 69 "flag")
          >> load_int 72 localbuf))
    shmem 75 Call.sync_all
  when (my_pe == 1) do shmem 79 Call.sync_all; load_int 80 remote
  epilogue 83

-- SHMEM/hybrid/010-shmem-hybrid-task-local-yes.c
unfoldable pub task_local_yes : TestCase Call
unfolding prologue epilogue
task_local_yes =
    test "SHMEM/hybrid/010-shmem-hybrid-task-local-yes.c"
      (racy local_race rma_read local_load "shmem_get_nbi" 67 "LOAD" 74 2) 2
      λ my_pe num_pe. do
        prologue 42 0 2 my_pe num_pe
        when (my_pe == 0) do
          team 59 (
              single (
                task 63
                  (my_signal 65 "flag"
                    >> shmem 67 (Call.get_nbi_generic localbuf remote 1 1)
                    >> shmem 68 Call.quiet)
                  (my_wait 72 "flag" >> load_int 74 localbuf)))
          shmem 77 Call.sync_all
        when (my_pe == 1) do shmem 81 Call.sync_all; load_int 82 remote
        epilogue 85

-- SHMEM/hybrid/019-shmem-hybrid-task-remote-no.c
unfoldable pub task_remote_no : TestCase Call
unfolding prologue epilogue
task_remote_no = test "SHMEM/hybrid/019-shmem-hybrid-task-remote-no.c" (quiet 2) 2 λ my_pe num_pe.
    do
      prologue 40 0 2 my_pe num_pe
      when (my_pe == 0) do
        shmem 56 (Call.put_nbi_generic remote localbuf 1 1)
        shmem 57 Call.quiet
        shmem 58 Call.sync_all
      when (my_pe == 1) do
        team 63 (
            single (
              task 67 (my_signal 69 "flag" >> shmem 70 Call.sync_all) (my_wait 74 "flag")
              >> load_int 76 remote))
      epilogue 81

-- SHMEM/hybrid/020-shmem-hybrid-task-remote-yes.c
unfoldable pub task_remote_yes : TestCase Call
unfolding prologue epilogue
task_remote_yes =
    test "SHMEM/hybrid/020-shmem-hybrid-task-remote-yes.c"
      (racy remote_race rma_write local_load "shmem_put_nbi" 59 "LOAD" 79 2) 2
      λ my_pe num_pe. do
        prologue 42 0 2 my_pe num_pe
        when (my_pe == 0) do
          shmem 59 (Call.put_nbi_generic remote localbuf 1 1)
          shmem 60 Call.quiet
          shmem 61 Call.sync_all
        when (my_pe == 1) do
          team 66 (
              single (
                task 70 (my_signal 72 "flag" >> shmem 73 Call.sync_all)
                  (my_wait 77 "flag" >> load_int 79 remote)))
        epilogue 84

abbrev pub hybrid_task_tests : List (TestCase Call)
hybrid_task_tests = task_local_no ∷ task_remote_no ∷ task_remote_yes ∷ []
