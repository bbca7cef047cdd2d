-- ===== src/Shmem/Sync/Order.antt =====
-- Order at the target, by shmem_barrier_all, shmem_quiet with shmem_sync, and shmem_fence: tests of SHMEM/sync.
use rmarace_bench.Base.{List, [], ◌∷◌, not, ◌==◌}
use rmarace_bench.Race.Label.{remote_race, rma_read, rma_write}
use rmarace_bench.Program.{◌>>◌, when, load_int, store_int, addr}
use rmarace_bench.TestCase.{TestCase, test, racy, quiet}
use rmarace_bench.Shmem.Call.{Call, shmem}
use rmarace_bench.Shmem.Boilerplate.{remote, localbuf, prologue, epilogue}

-- SHMEM/sync/007-shmem-sync-barrierall-remote-yes.c
unfoldable pub barrierall_remote_yes : TestCase Call
unfolding prologue epilogue
barrierall_remote_yes =
    test "SHMEM/sync/007-shmem-sync-barrierall-remote-yes.c"
      (racy remote_race rma_write rma_read "shmem_int_put" 47 "shmem_int_get" 49 2) 2
      λ my_pe num_pe. do
        prologue 25 0 2 my_pe num_pe
        shmem 40 Call.barrier_all
        when (my_pe == 0) do
          store_int 43 (addr "source") 1
          store_int 45 (addr "myval") 42
          shmem 47 (Call.put remote (addr "myval") 1 1)
          shmem 49 (Call.get localbuf remote 1 1)
          shmem 50 Call.barrier_all
        when (not (my_pe == 0)) do shmem 53 Call.barrier_all
        shmem 56 Call.barrier_all
        load_int 58 localbuf
        load_int 58 remote
        epilogue 60

-- SHMEM/sync/008-shmem-sync-barrierall-remote-no.c
unfoldable pub barrierall_remote_no : TestCase Call
unfolding prologue epilogue
barrierall_remote_no =
    test "SHMEM/sync/008-shmem-sync-barrierall-remote-no.c" (quiet 2) 2 λ my_pe num_pe. do
      prologue 24 0 2 my_pe num_pe
      shmem 39 Call.barrier_all
      when (my_pe == 0) do
        store_int 42 (addr "source") 1
        store_int 44 (addr "myval") 42
        shmem 45 (Call.put remote (addr "myval") 1 1)
        shmem 46 Call.barrier_all
        shmem 47 (Call.get localbuf remote 1 1)
      when (not (my_pe == 0)) do shmem 50 Call.barrier_all
      shmem 53 Call.barrier_all
      load_int 55 localbuf
      load_int 55 remote
      epilogue 57

-- SHMEM/sync/009-shmem-sync-quiet-sync-remote-no.c
unfoldable pub quiet_sync_remote_no : TestCase Call
unfolding prologue epilogue
quiet_sync_remote_no =
    test "SHMEM/sync/009-shmem-sync-quiet-sync-remote-no.c" (quiet 2) 2 λ my_pe num_pe. do
      prologue 24 0 2 my_pe num_pe
      shmem 39 Call.barrier_all
      when (my_pe == 0)
          do store_int 42 (addr "myval") 42; shmem 43 (Call.put remote (addr "myval") 1 1)
      shmem 46 Call.quiet
      shmem 47 Call.sync
      when (my_pe == 1) do shmem 50 (Call.get localbuf remote 1 1)
      shmem 53 Call.barrier_all
      load_int 55 localbuf
      load_int 55 remote
      epilogue 57

-- SHMEM/sync/010-shmem-sync-quiet-sync-remote-yes.c
unfoldable pub quiet_sync_remote_yes : TestCase Call
unfolding prologue epilogue
quiet_sync_remote_yes =
    test "SHMEM/sync/010-shmem-sync-quiet-sync-remote-yes.c"
      (racy remote_race rma_write rma_read "shmem_int_put" 45 "shmem_int_get" 52 2) 2
      λ my_pe num_pe. do
        prologue 25 0 2 my_pe num_pe
        shmem 40 Call.barrier_all
        when (my_pe == 0)
            do store_int 43 (addr "myval") 42; shmem 45 (Call.put remote (addr "myval") 1 1)
        shmem 48 Call.quiet
        when (my_pe == 1) do shmem 52 (Call.get localbuf remote 1 1)
        shmem 55 Call.barrier_all
        load_int 57 localbuf
        load_int 57 remote
        epilogue 59

-- SHMEM/sync/011-shmem-sync-fence-put-put-remote-no.c
unfoldable pub fence_put_put_remote_no : TestCase Call
unfolding prologue epilogue
fence_put_put_remote_no =
    test "SHMEM/sync/011-shmem-sync-fence-put-put-remote-no.c" (quiet 2) 2 λ my_pe num_pe. do
      prologue 24 0 2 my_pe num_pe
      shmem 39 Call.barrier_all
      when (my_pe == 0) do
        shmem 42 (Call.put remote localbuf 1 1)
        shmem 44 Call.fence
        shmem 46 (Call.put remote localbuf 1 1)
      shmem 49 Call.barrier_all
      load_int 51 localbuf
      load_int 51 remote
      epilogue 53

-- SHMEM/sync/012-shmem-sync-fence-getnbi-put-remote-yes.c
unfoldable pub fence_getnbi_put_remote_yes : TestCase Call
unfolding prologue epilogue
fence_getnbi_put_remote_yes =
    test "SHMEM/sync/012-shmem-sync-fence-getnbi-put-remote-yes.c"
      (racy remote_race rma_read rma_write "shmem_int_get" 44 "shmem_int_put" 50 2) 2
      λ my_pe num_pe. do
        prologue 25 0 2 my_pe num_pe
        shmem 40 Call.barrier_all
        when (my_pe == 0) do
          shmem 44 (Call.get_nbi localbuf remote 1 1)
          shmem 46 Call.fence
          store_int 48 (addr "localbuf2") 42
          shmem 50 (Call.put remote (addr "localbuf2") 1 1)
        shmem 53 Call.barrier_all
        load_int 55 localbuf
        load_int 55 remote
        epilogue 57

abbrev pub order_tests : List (TestCase Call)
order_tests =
    barrierall_remote_yes ∷ barrierall_remote_no ∷ quiet_sync_remote_no ∷ quiet_sync_remote_yes
    ∷ fence_put_put_remote_no ∷ []
