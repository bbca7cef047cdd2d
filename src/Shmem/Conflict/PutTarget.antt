-- ===== src/Shmem/Conflict/PutTarget.antt =====
-- A put and a second access to the memory of its target: tests of SHMEM/conflict.
use rmarace_bench.Base.{List, [], ◌∷◌, ◌==◌}
use rmarace_bench.Race.Label.{
  remote_race, local_load, local_store, rma_atomic_read, rma_atomic_write, rma_write,
}
use rmarace_bench.Program.{◌>>◌, when, load_int, store_int, store_result}
use rmarace_bench.TestCase.{TestCase, test, racy}
use rmarace_bench.Shmem.Call.{Call, shmem}
use rmarace_bench.Shmem.Boilerplate.{remote, localbuf, prologue, epilogue}

-- SHMEM/conflict/022-shmem-conflict-put-load-remote-yes.c
unfoldable pub put_load_remote_yes : TestCase Call
unfolding prologue epilogue
put_load_remote_yes =
    test "SHMEM/conflict/022-shmem-conflict-put-load-remote-yes.c"
      (racy remote_race rma_write local_load "shmem_int_put" 41 "LOAD" 46 2) 2
      λ my_pe num_pe. do
        prologue 23 0 2 my_pe num_pe
        shmem 37 Call.barrier_all
        when (my_pe == 0) do shmem 41 (Call.put remote localbuf 1 1)
        when (my_pe == 1) do load_int 46 remote
        shmem 49 Call.barrier_all
        load_int 51 localbuf
        load_int 51 remote
        epilogue 53

-- SHMEM/conflict/023-shmem-conflict-put-store-remote-yes.c
unfoldable pub put_store_remote_yes : TestCase Call
unfolding prologue epilogue
put_store_remote_yes =
    test "SHMEM/conflict/023-shmem-conflict-put-store-remote-yes.c"
      (racy remote_race rma_write local_store "shmem_int_put" 41 "STORE" 46 2) 2
      λ my_pe num_pe. do
        prologue 23 0 2 my_pe num_pe
        shmem 37 Call.barrier_all
        when (my_pe == 0) do shmem 41 (Call.put remote localbuf 1 1)
        when (my_pe == 1) do store_int 46 remote 42
        shmem 49 Call.barrier_all
        load_int 51 localbuf
        load_int 51 remote
        epilogue 53

-- SHMEM/conflict/024-shmem-conflict-put-put-remote-yes.c
unfoldable pub put_put_remote_yes : TestCase Call
unfolding prologue epilogue
put_put_remote_yes =
    test "SHMEM/conflict/024-shmem-conflict-put-put-remote-yes.c"
      (racy remote_race rma_write rma_write "shmem_int_put" 41 "shmem_int_put" 48 3) 3
      λ my_pe num_pe. do
        prologue 23 0 3 my_pe num_pe
        shmem 37 Call.barrier_all
        when (my_pe == 0) do shmem 41 (Call.put remote localbuf 1 1)
        when (my_pe == 2) do store_int 45 localbuf 2; shmem 48 (Call.put remote localbuf 1 1)
        shmem 51 Call.barrier_all
        load_int 53 localbuf
        load_int 53 remote
        epilogue 55

-- SHMEM/conflict/025-shmem-conflict-put-atomicfetch-remote-yes.c
unfoldable pub put_atomicfetch_remote_yes : TestCase Call
unfolding prologue epilogue
put_atomicfetch_remote_yes =
    test "SHMEM/conflict/025-shmem-conflict-put-atomicfetch-remote-yes.c"
      (racy remote_race rma_write rma_atomic_read "shmem_int_put" 41 "shmem_int_atomic_fetch" 48 3)
      3
      λ my_pe num_pe. do
        prologue 23 0 3 my_pe num_pe
        shmem 37 Call.barrier_all
        when (my_pe == 0) do shmem 41 (Call.put remote localbuf 1 1)
        when (my_pe == 2) do
          store_int 45 localbuf 2
          shmem 48 (Call.atomic_fetch remote 1)
          store_result 48 localbuf
        shmem 51 Call.barrier_all
        load_int 53 localbuf
        load_int 53 remote
        epilogue 55

-- SHMEM/conflict/026-shmem-conflict-put-atomicset-remote-yes.c
unfoldable pub put_atomicset_remote_yes : TestCase Call
unfolding prologue epilogue
put_atomicset_remote_yes =
    test "SHMEM/conflict/026-shmem-conflict-put-atomicset-remote-yes.c"
      (racy remote_race rma_write rma_atomic_write "shmem_int_put" 41 "shmem_int_atomic_set" 48 3) 3
      λ my_pe num_pe. do
        prologue 23 0 3 my_pe num_pe
        shmem 37 Call.barrier_all
        when (my_pe == 0) do shmem 41 (Call.put remote localbuf 1 1)
        when (my_pe == 2) do store_int 45 localbuf 2; shmem 48 (Call.atomic_set remote 1 1)
        shmem 51 Call.barrier_all
        load_int 53 localbuf
        load_int 53 remote
        epilogue 55

abbrev pub put_target_tests : List (TestCase Call)
put_target_tests =
    put_load_remote_yes ∷ put_store_remote_yes ∷ put_put_remote_yes ∷ put_atomicfetch_remote_yes
    ∷ put_atomicset_remote_yes ∷ []
