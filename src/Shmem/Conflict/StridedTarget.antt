-- ===== src/Shmem/Conflict/StridedTarget.antt =====
-- A strided transfer and a second access to its target: tests of SHMEM/conflict.
use rmarace_bench.Base.{List, [], ◌∷◌, ◌==◌}
use rmarace_bench.Race.Label.{remote_race, local_store, rma_read, rma_write}
use rmarace_bench.Program.{◌>>◌, when, load_int, store_int}
use rmarace_bench.TestCase.{TestCase, test, racy}
use rmarace_bench.Shmem.Call.{Call, shmem}
use rmarace_bench.Shmem.Boilerplate.{remote, localbuf, prologue, epilogue}

-- SHMEM/conflict/040-shmem-conflict-iput-store-remote-yes.c
unfoldable pub iput_store_remote_yes : TestCase Call
unfolding prologue epilogue
iput_store_remote_yes =
    test "SHMEM/conflict/040-shmem-conflict-iput-store-remote-yes.c"
      (racy remote_race rma_write local_store "shmem_int_iput" 41 "STORE" 46 2) 2
      λ my_pe num_pe. do
        prologue 23 0 2 my_pe num_pe
        shmem 37 Call.barrier_all
        when (my_pe == 0) do shmem 41 (Call.iput remote localbuf 1 1 1 1)
        when (my_pe == 1) do store_int 46 remote 42
        shmem 49 Call.barrier_all
        load_int 51 localbuf
        load_int 51 remote
        epilogue 53

-- SHMEM/conflict/041-shmem-conflict-iput-put-remote-yes.c
unfoldable pub iput_put_remote_yes : TestCase Call
unfolding prologue epilogue
iput_put_remote_yes =
    test "SHMEM/conflict/041-shmem-conflict-iput-put-remote-yes.c"
      (racy remote_race rma_write rma_write "shmem_int_iput" 41 "shmem_int_put" 48 3) 3
      λ my_pe num_pe. do
        prologue 23 0 3 my_pe num_pe
        shmem 37 Call.barrier_all
        when (my_pe == 0) do shmem 41 (Call.iput remote localbuf 1 1 1 1)
        when (my_pe == 2) do store_int 45 localbuf 2; shmem 48 (Call.put remote localbuf 1 1)
        shmem 51 Call.barrier_all
        load_int 53 localbuf
        load_int 53 remote
        epilogue 55

-- SHMEM/conflict/042-shmem-conflict-iget-store-remote-yes.c
unfoldable pub iget_store_remote_yes : TestCase Call
unfolding prologue epilogue
iget_store_remote_yes =
    test "SHMEM/conflict/042-shmem-conflict-iget-store-remote-yes.c"
      (racy remote_race rma_read local_store "shmem_int_iget" 41 "STORE" 46 2) 2
      λ my_pe num_pe. do
        prologue 23 0 2 my_pe num_pe
        shmem 37 Call.barrier_all
        when (my_pe == 0) do shmem 41 (Call.iget localbuf remote 1 1 1 1)
        when (my_pe == 1) do store_int 46 remote 42
        shmem 49 Call.barrier_all
        load_int 51 localbuf
        load_int 51 remote
        epilogue 53

-- SHMEM/conflict/043-shmem-conflict-iget-put-remote-yes.c
unfoldable pub iget_put_remote_yes : TestCase Call
unfolding prologue epilogue
iget_put_remote_yes =
    test "SHMEM/conflict/043-shmem-conflict-iget-put-remote-yes.c"
      (racy remote_race rma_read rma_write "shmem_int_iget" 41 "shmem_int_put" 48 3) 3
      λ my_pe num_pe. do
        prologue 23 0 3 my_pe num_pe
        shmem 37 Call.barrier_all
        when (my_pe == 0) do shmem 41 (Call.iget localbuf remote 1 1 1 1)
        when (my_pe == 2) do store_int 45 localbuf 2; shmem 48 (Call.put remote localbuf 1 1)
        shmem 51 Call.barrier_all
        load_int 53 localbuf
        load_int 53 remote
        epilogue 55

abbrev pub strided_target_tests : List (TestCase Call)
strided_target_tests =
    iput_store_remote_yes ∷ iput_put_remote_yes ∷ iget_store_remote_yes ∷ iget_put_remote_yes ∷ []
