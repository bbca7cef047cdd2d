-- ===== src/Shmem/Sync/Context.antt =====
-- Contexts: tests of SHMEM/sync.
use rmarace_bench.Base.{◌==◌}
use rmarace_bench.Race.Label.{remote_race, rma_write}
use rmarace_bench.Program.{◌>>◌, when, load_int, store_int}
use rmarace_bench.TestCase.{TestCase, test, racy, quiet}
use rmarace_bench.Shmem.Call.{Call, shmem}
use rmarace_bench.Shmem.Boilerplate.{remote, localbuf, prologue, epilogue}

-- SHMEM/sync/019-shmem-sync-ctx-remote-no.c
unfoldable pub ctx_remote_no : TestCase Call
unfolding prologue epilogue
ctx_remote_no = test "SHMEM/sync/019-shmem-sync-ctx-remote-no.c" (quiet 2) 2 λ my_pe num_pe. do
  prologue 24 0 2 my_pe num_pe
  shmem 40 (Call.ctx_create "ctx")
  shmem 42 Call.barrier_all
  when (my_pe == 0) do
    store_int 45 localbuf 42
    shmem 47 (Call.ctx_put "ctx" remote localbuf 1 1)
    shmem 48 (Call.ctx_quiet "ctx")
    store_int 49 localbuf 1337
    shmem 51 (Call.ctx_put "ctx" remote localbuf 1 1)
  shmem 54 Call.barrier_all
  load_int 56 remote
  epilogue 58

-- SHMEM/sync/020-shmem-sync-ctx-remote-yes.c
unfoldable pub ctx_remote_yes : TestCase Call
unfolding prologue epilogue
ctx_remote_yes =
    test "SHMEM/sync/020-shmem-sync-ctx-remote-yes.c"
      (racy remote_race rma_write rma_write "shmem_ctx_int_put" 48 "shmem_ctx_int_put" 52 2) 2
      λ my_pe num_pe. do
        prologue 25 0 2 my_pe num_pe
        shmem 41 (Call.ctx_create "ctx")
        shmem 43 Call.barrier_all
        when (my_pe == 0) do
          store_int 46 localbuf 42
          shmem 48 (Call.ctx_put "ctx" remote localbuf 1 1)
          shmem 49 Call.quiet
          store_int 50 localbuf 1337
          shmem 52 (Call.ctx_put "ctx" remote localbuf 1 1)
        shmem 55 Call.barrier_all
        load_int 57 remote
        epilogue 59
