-- ===== src/Shmem/Sync/Quiet.antt =====
-- Completion of the local buffer, by shmem_quiet and shmem_barrier_all: tests of SHMEM/sync.
use rmarace_bench.Base.{List, [], ◌∷◌, not, ◌==◌}
use rmarace_bench.Race.Label.{local_race, buffer_write, local_load}
use rmarace_bench.Program.{◌>>◌, when, load_int}
use rmarace_bench.TestCase.{TestCase, test, racy, quiet}
use rmarace_bench.Shmem.Call.{Call, shmem}
use rmarace_bench.Shmem.Boilerplate.{remote, localbuf, prologue, epilogue}

-- SHMEM/sync/001-shmem-sync-barrierall-local-yes.c
unfoldable pub barrierall_local_yes : TestCase Call
unfolding prologue epilogue
barrierall_local_yes =
    test "SHMEM/sync/001-shmem-sync-barrierall-local-yes.c"
      (racy local_race buffer_write local_load "shmem_int_get" 45 "LOAD" 47 2) 2
      λ my_pe num_pe. do
        prologue 25 0 2 my_pe num_pe
        shmem 40 Call.barrier_all
        when (my_pe == 0) do
          shmem 45 (Call.get_nbi localbuf remote 1 1)
          load_int 47 localbuf
          shmem 48 Call.barrier_all
        when (not (my_pe == 0)) do shmem 51 Call.barrier_all
        load_int 54 localbuf
        load_int 54 remote
        epilogue 56

-- SHMEM/sync/002-shmem-sync-barrierall-local-no.c
unfoldable pub barrierall_local_no : TestCase Call
unfolding prologue epilogue
barrierall_local_no =
    test "SHMEM/sync/002-shmem-sync-barrierall-local-no.c" (quiet 2) 2 λ my_pe num_pe. do
      prologue 24 0 2 my_pe num_pe
      shmem 39 Call.barrier_all
      when (my_pe == 0) do
        shmem 43 (Call.get_nbi localbuf remote 1 1)
        shmem 44 Call.barrier_all
        load_int 45 localbuf
      when (not (my_pe == 0)) do shmem 48 Call.barrier_all
      load_int 51 localbuf
      load_int 51 remote
      epilogue 53

-- SHMEM/sync/003-shmem-sync-quiet-local-yes.c
unfoldable pub quiet_local_yes : TestCase Call
unfolding prologue epilogue
quiet_local_yes =
    test "SHMEM/sync/003-shmem-sync-quiet-local-yes.c"
      (racy local_race buffer_write local_load "shmem_int_get" 45 "LOAD" 47 2) 2
      λ my_pe num_pe. do
        prologue 25 0 2 my_pe num_pe
        shmem 40 Call.barrier_all
        when (my_pe == 0) do
          shmem 45 (Call.get_nbi localbuf remote 1 1)
          load_int 47 localbuf
          shmem 48 Call.quiet
        shmem 51 Call.barrier_all
        load_int 53 localbuf
        load_int 53 remote
        epilogue 55

-- SHMEM/sync/004-shmem-sync-quiet-local-no.c
unfoldable pub quiet_local_no : TestCase Call
unfolding prologue epilogue
quiet_local_no = test "SHMEM/sync/004-shmem-sync-quiet-local-no.c" (quiet 2) 2 λ my_pe num_pe. do
  prologue 24 0 2 my_pe num_pe
  shmem 39 Call.barrier_all
  when (my_pe == 0)
      do shmem 43 (Call.get_nbi localbuf remote 1 1); shmem 44 Call.quiet; load_int 45 localbuf
  shmem 48 Call.barrier_all
  load_int 50 localbuf
  load_int 50 remote
  epilogue 52

abbrev pub quiet_tests : List (TestCase Call)
quiet_tests = barrierall_local_no ∷ quiet_local_no ∷ []
