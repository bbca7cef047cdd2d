-- ===== src/Shmem/Sync/CriticalSection.antt =====
-- Locks: tests of SHMEM/sync.
use rmarace_bench.Base.{List, [], ◌∷◌, ◌==◌}
use rmarace_bench.Race.Label.{remote_race, rma_write}
use rmarace_bench.Program.{◌>>◌, when, load_int, store_int}
use rmarace_bench.TestCase.{TestCase, test, racy, quiet}
use rmarace_bench.Shmem.Call.{Call, shmem}
use rmarace_bench.Shmem.Boilerplate.{remote, localbuf, prologue, epilogue}

-- SHMEM/sync/013-shmem-sync-lock-remote-no.c
unfoldable pub lock_remote_no : TestCase Call
unfolding prologue epilogue
lock_remote_no = test "SHMEM/sync/013-shmem-sync-lock-remote-no.c" (quiet 2) 2 λ my_pe num_pe. do
  prologue 24 0 2 my_pe num_pe
  shmem 40 Call.barrier_all
  when (my_pe == 0) do
    store_int 43 localbuf 42
    shmem 44 (Call.set_lock "lock")
    shmem 45 (Call.put remote localbuf 1 1)
    shmem 46 (Call.clear_lock "lock")
  when (my_pe == 1) do
    store_int 50 localbuf 1337
    shmem 51 (Call.set_lock "lock")
    shmem 52 (Call.put remote localbuf 1 1)
    shmem 53 (Call.clear_lock "lock")
  shmem 56 Call.barrier_all
  load_int 58 localbuf
  load_int 58 remote
  epilogue 60

-- SHMEM/sync/014-shmem-sync-lock-remote-yes.c
unfoldable pub lock_remote_yes : TestCase Call
unfolding prologue epilogue
lock_remote_yes =
    test "SHMEM/sync/014-shmem-sync-lock-remote-yes.c"
      (racy remote_race rma_write rma_write "shmem_int_put" 51 "shmem_int_put" 61 2) 2
      λ my_pe num_pe. do
        prologue 27 0 2 my_pe num_pe
        shmem 43 Call.barrier_all
        when (my_pe == 0) do
          shmem 47 (Call.sleep 1)
          store_int 48 localbuf 42
          shmem 49 (Call.set_lock "lock")
          shmem 51 (Call.put remote localbuf 1 1)
          shmem 52 (Call.clear_lock "lock")
        when (my_pe == 1) do
          shmem 56 (Call.set_lock "lock")
          shmem 57 (Call.clear_lock "lock")
          store_int 59 localbuf 1337
          shmem 61 (Call.put remote localbuf 1 1)
        shmem 64 Call.barrier_all
        load_int 66 localbuf
        load_int 66 remote
        epilogue 68

abbrev pub critical_section_tests : List (TestCase Call)
critical_section_tests = lock_remote_no ∷ lock_remote_yes ∷ []
