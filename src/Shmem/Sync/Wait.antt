-- ===== src/Shmem/Sync/Wait.antt =====
-- Waiting for a signal or a value: tests of SHMEM/sync.
use rmarace_bench.Base.{List, [], ◌∷◌, ◌==◌}
use rmarace_bench.Race.Label.{
  local_race, remote_race, buffer_read, local_load, local_store, rma_write,
}
use rmarace_bench.Program.{◌>>◌, when, load_int, store_int, addr}
use rmarace_bench.TestCase.{TestCase, test, racy, quiet}
use rmarace_bench.Shmem.Call.{Call, shmem}
use rmarace_bench.Shmem.Boilerplate.{remote, localbuf, prologue, epilogue}

-- SHMEM/sync/005-shmem-sync-waituntil-local-no.c
unfoldable pub waituntil_local_no : TestCase Call
unfolding prologue epilogue
waituntil_local_no =
    test "SHMEM/sync/005-shmem-sync-waituntil-local-no.c" (quiet 2) 2 λ my_pe num_pe. do
      prologue 24 0 2 my_pe num_pe
      shmem 41 Call.barrier_all
      when (my_pe == 0) do
        store_int 44 localbuf 42
        shmem 46 (Call.put_signal_nbi remote localbuf 1 (addr "flag") 1 1)
        shmem 48 (Call.uint64_wait_until (addr "flag") 1)
        store_int 49 localbuf 1337
      when (my_pe == 1) do
        store_int 53 localbuf 1337
        shmem 55 (Call.uint64_wait_until (addr "flag") 1)
        shmem 57 (Call.put_signal remote localbuf 1 (addr "flag") 1 0)
      shmem 60 Call.barrier_all
      epilogue 62

-- SHMEM/sync/006-shmem-sync-waituntil-local-yes.c
unfoldable pub waituntil_local_yes : TestCase Call
unfolding prologue epilogue
waituntil_local_yes =
    test "SHMEM/sync/006-shmem-sync-waituntil-local-yes.c"
      (racy local_race buffer_read local_store "shmem_int_put_signal_nbi" 48 "STORE" 52 2) 2
      λ my_pe num_pe. do
        prologue 25 0 2 my_pe num_pe
        shmem 42 Call.barrier_all
        when (my_pe == 0) do
          store_int 45 localbuf 42
          shmem 48 (Call.put_signal_nbi remote localbuf 1 (addr "flag") 1 1)
          shmem 50 (Call.uint64_wait_until (addr "flag") 1)
          store_int 52 localbuf 1337
        when (my_pe == 1) do
          store_int 56 localbuf 1337
          shmem 58 (Call.put_signal remote localbuf 1 (addr "flag") 1 0)
        shmem 61 Call.barrier_all
        epilogue 63

-- SHMEM/sync/015-shmem-sync-waituntil-remote-yes.c
unfoldable pub waituntil_remote_yes : TestCase Call
unfolding prologue epilogue
waituntil_remote_yes =
    test "SHMEM/sync/015-shmem-sync-waituntil-remote-yes.c"
      (racy remote_race rma_write local_load "shmem_int_put" 47 "LOAD" 58 2) 2
      λ my_pe num_pe. do
        prologue 25 0 2 my_pe num_pe
        shmem 42 Call.barrier_all
        when (my_pe == 0) do
          store_int 45 (addr "myval") 42
          shmem 47 (Call.put remote (addr "myval") 1 1)
          shmem 49 Call.fence
          shmem 51 (Call.atomic_set (addr "flag") 1 1)
        shmem 54 Call.quiet
        when (my_pe == 1) do load_int 58 remote; shmem 59 (Call.int_wait_until (addr "flag") 1)
        shmem 62 Call.barrier_all
        epilogue 64

-- SHMEM/sync/016-shmem-sync-waituntil-remote-no.c
unfoldable pub waituntil_remote_no : TestCase Call
unfolding prologue epilogue
waituntil_remote_no =
    test "SHMEM/sync/016-shmem-sync-waituntil-remote-no.c" (quiet 2) 2 λ my_pe num_pe. do
      prologue 24 0 2 my_pe num_pe
      shmem 41 Call.barrier_all
      when (my_pe == 0) do
        store_int 44 (addr "myval") 42
        shmem 45 (Call.put remote (addr "myval") 1 1)
        shmem 47 Call.fence
        shmem 49 (Call.atomic_set (addr "flag") 1 1)
      shmem 52 Call.quiet
      when (my_pe == 1) do shmem 55 (Call.int_wait_until (addr "flag") 1); load_int 57 remote
      shmem 60 Call.barrier_all
      epilogue 62

abbrev pub wait_tests : List (TestCase Call)
wait_tests =
    waituntil_local_no ∷ waituntil_local_yes ∷ waituntil_remote_yes ∷ waituntil_remote_no ∷ []
