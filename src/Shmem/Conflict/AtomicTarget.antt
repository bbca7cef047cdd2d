-- ===== src/Shmem/Conflict/AtomicTarget.antt =====
-- An atomic operation and a second access to the memory of its target: tests of SHMEM/conflict.
use rmarace_bench.Base.{List, [], ◌∷◌, ◌==◌}
use rmarace_bench.Race.Label.{
  remote_race, local_load, local_store, rma_atomic_read, rma_atomic_write,
}
use rmarace_bench.Program.{◌>>◌, when, load_int, store_int, store_result}
use rmarace_bench.TestCase.{TestCase, test, racy, quiet}
use rmarace_bench.Shmem.Call.{Call, shmem}
use rmarace_bench.Shmem.Boilerplate.{remote, localbuf, prologue, epilogue}

-- SHMEM/conflict/027-shmem-conflict-atomicset-load-remote-yes.c
unfoldable pub atomicset_load_remote_yes : TestCase Call
unfolding prologue epilogue
atomicset_load_remote_yes =
    test "SHMEM/conflict/027-shmem-conflict-atomicset-load-remote-yes.c"
      (racy remote_race rma_atomic_write local_load "shmem_int_atomic_set" 41 "LOAD" 46 2) 2
      λ my_pe num_pe. do
        prologue 23 0 2 my_pe num_pe
        shmem 37 Call.barrier_all
        when (my_pe == 0) do shmem 41 (Call.atomic_set remote 1 1)
        when (my_pe == 1) do load_int 46 remote
        shmem 49 Call.barrier_all
        load_int 51 localbuf
        load_int 51 remote
        epilogue 53

-- SHMEM/conflict/028-shmem-conflict-atomicset-store-remote-yes.c
unfoldable pub atomicset_store_remote_yes : TestCase Call
unfolding prologue epilogue
atomicset_store_remote_yes =
    test "SHMEM/conflict/028-shmem-conflict-atomicset-store-remote-yes.c"
      (racy remote_race rma_atomic_write local_store "shmem_int_atomic_set" 41 "STORE" 46 2) 2
      λ my_pe num_pe. do
        prologue 23 0 2 my_pe num_pe
        shmem 37 Call.barrier_all
        when (my_pe == 0) do shmem 41 (Call.atomic_set remote 1 1)
        when (my_pe == 1) do store_int 46 remote 42
        shmem 49 Call.barrier_all
        load_int 51 localbuf
        load_int 51 remote
        epilogue 53

-- SHMEM/conflict/029-shmem-conflict-atomicset-atomicset-remote-no.c
unfoldable pub atomicset_atomicset_remote_no : TestCase Call
unfolding prologue epilogue
atomicset_atomicset_remote_no =
    test "SHMEM/conflict/029-shmem-conflict-atomicset-atomicset-remote-no.c" (quiet 3) 3
      λ my_pe num_pe. do
        prologue 22 0 3 my_pe num_pe
        shmem 36 Call.barrier_all
        when (my_pe == 0) do shmem 39 (Call.atomic_set remote 1 1)
        when (my_pe == 2) do store_int 43 localbuf 2; shmem 45 (Call.atomic_set remote 1 1)
        shmem 48 Call.barrier_all
        load_int 50 localbuf
        load_int 50 remote
        epilogue 52

-- SHMEM/conflict/030-shmem-conflict-atomicset-atomicfetch-remote-no.c
unfoldable pub atomicset_atomicfetch_remote_no : TestCase Call
unfolding prologue epilogue
atomicset_atomicfetch_remote_no =
    test "SHMEM/conflict/030-shmem-conflict-atomicset-atomicfetch-remote-no.c" (quiet 3) 3
      λ my_pe num_pe. do
        prologue 22 0 3 my_pe num_pe
        shmem 36 Call.barrier_all
        when (my_pe == 0) do shmem 39 (Call.atomic_set remote 1 1)
        when (my_pe == 2) do
          store_int 43 localbuf 2
          shmem 45 (Call.atomic_fetch remote 1)
          store_result 45 localbuf
        shmem 48 Call.barrier_all
        load_int 50 localbuf
        load_int 50 remote
        epilogue 52

-- SHMEM/conflict/031-shmem-conflict-atomicfetch-atomicfetch-remote-no.c
unfoldable pub atomicfetch_atomicfetch_remote_no : TestCase Call
unfolding prologue epilogue
atomicfetch_atomicfetch_remote_no =
    test "SHMEM/conflict/031-shmem-conflict-atomicfetch-atomicfetch-remote-no.c" (quiet 3) 3
      λ my_pe num_pe. do
        prologue 22 0 3 my_pe num_pe
        shmem 36 Call.barrier_all
        when (my_pe == 0) do shmem 39 (Call.atomic_fetch remote 1); store_result 39 localbuf
        when (my_pe == 2) do
          store_int 43 localbuf 2
          shmem 45 (Call.atomic_fetch remote 1)
          store_result 45 localbuf
        shmem 48 Call.barrier_all
        load_int 50 localbuf
        load_int 50 remote
        epilogue 52

-- SHMEM/conflict/032-shmem-conflict-atomicfetch-load-remote-no.c
unfoldable pub atomicfetch_load_remote_no : TestCase Call
unfolding prologue epilogue
atomicfetch_load_remote_no =
    test "SHMEM/conflict/032-shmem-conflict-atomicfetch-load-remote-no.c" (quiet 2) 2
      λ my_pe num_pe. do
        prologue 22 0 2 my_pe num_pe
        shmem 36 Call.barrier_all
        when (my_pe == 0) do shmem 39 (Call.atomic_fetch remote 1); store_result 39 localbuf
        when (my_pe == 1) do load_int 43 remote
        shmem 46 Call.barrier_all
        load_int 48 localbuf
        load_int 48 remote
        epilogue 50

-- SHMEM/conflict/033-shmem-conflict-atomicfetch-store-remote-yes.c
unfoldable pub atomicfetch_store_remote_yes : TestCase Call
unfolding prologue epilogue
atomicfetch_store_remote_yes =
    test "SHMEM/conflict/033-shmem-conflict-atomicfetch-store-remote-yes.c"
      (racy remote_race rma_atomic_read local_store "shmem_int_atomic_fetch" 41 "STORE" 46 2) 2
      λ my_pe num_pe. do
        prologue 23 0 2 my_pe num_pe
        shmem 37 Call.barrier_all
        when (my_pe == 0) do shmem 41 (Call.atomic_fetch remote 1); store_result 41 localbuf
        when (my_pe == 1) do store_int 46 remote 42
        shmem 49 Call.barrier_all
        load_int 51 localbuf
        load_int 51 remote
        epilogue 53

abbrev pub atomic_target_tests : List (TestCase Call)
atomic_target_tests =
    atomicset_load_remote_yes ∷ atomicset_store_remote_yes ∷ atomicset_atomicset_remote_no
    ∷ atomicset_atomicfetch_remote_no ∷ atomicfetch_atomicfetch_remote_no
    ∷ atomicfetch_load_remote_no ∷ atomicfetch_store_remote_yes ∷ []
