-- ===== src/Shmem/Conflict/GetTarget.antt =====
-- A get and a second access to the memory of its target: tests of SHMEM/conflict.
use rmarace_bench.Base.{List, [], ◌∷◌, ◌==◌}
use rmarace_bench.Race.Label.{remote_race, local_store, rma_atomic_write, rma_read, rma_write}
use rmarace_bench.Program.{◌>>◌, when, load_int, store_int, store_result}
use rmarace_bench.TestCase.{TestCase, test, racy, quiet}
use rmarace_bench.Shmem.Call.{Call, shmem}
use rmarace_bench.Shmem.Boilerplate.{remote, localbuf, prologue, epilogue}

-- SHMEM/conflict/016-shmem-conflict-get-load-remote-no.c
unfoldable pub get_load_remote_no : TestCase Call
unfolding prologue epilogue
get_load_remote_no =
    test "SHMEM/conflict/016-shmem-conflict-get-load-remote-no.c" (quiet 2) 2 λ my_pe num_pe. do
      prologue 22 0 2 my_pe num_pe
      shmem 36 Call.barrier_all
      when (my_pe == 0) do shmem 39 (Call.get localbuf remote 1 1)
      when (my_pe == 1) do load_int 43 remote
      shmem 46 Call.barrier_all
      load_int 48 localbuf
      load_int 48 remote
      epilogue 50

-- SHMEM/conflict/017-shmem-conflict-get-get-remote-no.c
unfoldable pub get_get_remote_no : TestCase Call
unfolding prologue epilogue
get_get_remote_no =
    test "SHMEM/conflict/017-shmem-conflict-get-get-remote-no.c" (quiet 3) 3 λ my_pe num_pe. do
      prologue 22 0 3 my_pe num_pe
      shmem 36 Call.barrier_all
      when (my_pe == 0) do shmem 39 (Call.get localbuf remote 1 1)
      when (my_pe == 2) do store_int 43 localbuf 2; shmem 45 (Call.get localbuf remote 1 1)
      shmem 48 Call.barrier_all
      load_int 50 localbuf
      load_int 50 remote
      epilogue 52

-- SHMEM/conflict/018-shmem-conflict-get-store-remote-yes.c
unfoldable pub get_store_remote_yes : TestCase Call
unfolding prologue epilogue
get_store_remote_yes =
    test "SHMEM/conflict/018-shmem-conflict-get-store-remote-yes.c"
      (racy remote_race rma_read local_store "shmem_int_get" 41 "STORE" 46 2) 2
      λ my_pe num_pe. do
        prologue 23 0 2 my_pe num_pe
        shmem 37 Call.barrier_all
        when (my_pe == 0) do shmem 41 (Call.get localbuf remote 1 1)
        when (my_pe == 1) do store_int 46 remote 42
        shmem 49 Call.barrier_all
        load_int 51 localbuf
        load_int 51 remote
        epilogue 53

-- SHMEM/conflict/019-shmem-conflict-get-put-remote-yes.c
unfoldable pub get_put_remote_yes : TestCase Call
unfolding prologue epilogue
get_put_remote_yes =
    test "SHMEM/conflict/019-shmem-conflict-get-put-remote-yes.c"
      (racy remote_race rma_read rma_write "shmem_int_get" 41 "shmem_int_put" 48 3) 3
      λ my_pe num_pe. do
        prologue 23 0 3 my_pe num_pe
        shmem 37 Call.barrier_all
        when (my_pe == 0) do shmem 41 (Call.get localbuf remote 1 1)
        when (my_pe == 2) do store_int 45 localbuf 2; shmem 48 (Call.put remote localbuf 1 1)
        shmem 51 Call.barrier_all
        load_int 53 localbuf
        load_int 53 remote
        epilogue 55

-- SHMEM/conflict/020-shmem-conflict-get-atomicfetch-remote-no.c
unfoldable pub get_atomicfetch_remote_no : TestCase Call
unfolding prologue epilogue
get_atomicfetch_remote_no =
    test "SHMEM/conflict/020-shmem-conflict-get-atomicfetch-remote-no.c" (quiet 3) 3 λ my_pe num_pe.
      do
        prologue 22 0 3 my_pe num_pe
        shmem 36 Call.barrier_all
        when (my_pe == 0) do shmem 39 (Call.get localbuf remote 1 1)
        when (my_pe == 2) do
          store_int 43 localbuf 2
          shmem 45 (Call.atomic_fetch remote 1)
          store_result 45 localbuf
        shmem 48 Call.barrier_all
        load_int 50 localbuf
        load_int 50 remote
        epilogue 52

-- SHMEM/conflict/021-shmem-conflict-get-atomicset-remote-yes.c
unfoldable pub get_atomicset_remote_yes : TestCase Call
unfolding prologue epilogue
get_atomicset_remote_yes =
    test "SHMEM/conflict/021-shmem-conflict-get-atomicset-remote-yes.c"
      (racy remote_race rma_read rma_atomic_write "shmem_int_get" 41 "shmem_int_atomic_set" 48 3) 3
      λ my_pe num_pe. do
        prologue 23 0 3 my_pe num_pe
        shmem 37 Call.barrier_all
        when (my_pe == 0) do shmem 41 (Call.get localbuf remote 1 1)
        when (my_pe == 2) do store_int 45 localbuf 2; shmem 48 (Call.atomic_set remote 1 1)
        shmem 51 Call.barrier_all
        load_int 53 localbuf
        load_int 53 remote
        epilogue 55

abbrev pub get_target_tests : List (TestCase Call)
get_target_tests =
    get_load_remote_no ∷ get_get_remote_no ∷ get_store_remote_yes ∷ get_put_remote_yes
    ∷ get_atomicfetch_remote_no ∷ get_atomicset_remote_yes ∷ []
