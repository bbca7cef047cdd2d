-- ===== src/Shmem/Conflict/FetchTarget.antt =====
-- Nonblocking atomic operations and a second access to their target: tests of SHMEM/conflict.
use rmarace_bench.Base.{List, [], ◌∷◌, ◌==◌}
use rmarace_bench.Race.Label.{remote_race, local_store, rma_atomic_read, rma_atomic_write}
use rmarace_bench.Program.{◌>>◌, when, load_int, store_int, store_result}
use rmarace_bench.TestCase.{TestCase, test, racy, quiet}
use rmarace_bench.Shmem.Call.{Call, shmem}
use rmarace_bench.Shmem.Boilerplate.{remote, localbuf, prologue, epilogue}

-- SHMEM/conflict/044-shmem-conflict-atomicfetchnbi-atomicfetchnbi-remote-no.c
unfoldable pub atomicfetchnbi_atomicfetchnbi_remote_no : TestCase Call
unfolding prologue epilogue
atomicfetchnbi_atomicfetchnbi_remote_no =
    test "SHMEM/conflict/044-shmem-conflict-atomicfetchnbi-atomicfetchnbi-remote-no.c" (quiet 3) 3
      λ my_pe num_pe. do
        prologue 22 0 3 my_pe num_pe
        shmem 36 Call.barrier_all
        when (my_pe == 0) do shmem 39 (Call.atomic_fetch_nbi localbuf remote 1)
        when (my_pe == 2)
            do store_int 43 localbuf 2; shmem 45 (Call.atomic_fetch_nbi localbuf remote 1)
        shmem 48 Call.barrier_all
        load_int 50 localbuf
        load_int 50 remote
        epilogue 52

-- SHMEM/conflict/045-shmem-conflict-atomicfetchnbi-load-remote-no.c
unfoldable pub atomicfetchnbi_load_remote_no : TestCase Call
unfolding prologue epilogue
atomicfetchnbi_load_remote_no =
    test "SHMEM/conflict/045-shmem-conflict-atomicfetchnbi-load-remote-no.c" (quiet 2) 2
      λ my_pe num_pe. do
        prologue 22 0 2 my_pe num_pe
        shmem 36 Call.barrier_all
        when (my_pe == 0) do shmem 39 (Call.atomic_fetch_nbi localbuf remote 1)
        when (my_pe == 1) do load_int 43 remote
        shmem 46 Call.barrier_all
        load_int 48 localbuf
        load_int 48 remote
        epilogue 50

-- SHMEM/conflict/046-shmem-conflict-atomicfetchinc-atomicfetchinc-remote-no.c
unfoldable pub atomicfetchinc_atomicfetchinc_remote_no : TestCase Call
unfolding prologue epilogue
atomicfetchinc_atomicfetchinc_remote_no =
    test "SHMEM/conflict/046-shmem-conflict-atomicfetchinc-atomicfetchinc-remote-no.c" (quiet 3) 3
      λ my_pe num_pe. do
        prologue 22 0 3 my_pe num_pe
        shmem 36 Call.barrier_all
        when (my_pe == 0) do shmem 39 (Call.atomic_fetch_inc remote 1); store_result 39 localbuf
        when (my_pe == 2) do
          store_int 43 localbuf 2
          shmem 45 (Call.atomic_fetch_inc remote 1)
          store_result 45 localbuf
        shmem 48 Call.barrier_all
        load_int 50 localbuf
        load_int 50 remote
        epilogue 52

-- SHMEM/conflict/047-shmem-conflict-atomicfetchnbi-store-remote-yes.c
unfoldable pub atomicfetchnbi_store_remote_yes : TestCase Call
unfolding prologue epilogue
atomicfetchnbi_store_remote_yes =
    test "SHMEM/conflict/047-shmem-conflict-atomicfetchnbi-store-remote-yes.c"
      (racy remote_race rma_atomic_read local_store "shmem_int_atomic_fetch" 41 "STORE" 46 2) 2
      λ my_pe num_pe. do
        prologue 23 0 2 my_pe num_pe
        shmem 37 Call.barrier_all
        when (my_pe == 0) do shmem 41 (Call.atomic_fetch_nbi localbuf remote 1)
        when (my_pe == 1) do store_int 46 remote 42
        shmem 49 Call.barrier_all
        load_int 51 localbuf
        load_int 51 remote
        epilogue 53

-- SHMEM/conflict/048-shmem-conflict-atomiccompareswapnbi-store-remote-yes.c
unfoldable pub atomiccompareswapnbi_store_remote_yes : TestCase Call
unfolding prologue epilogue
atomiccompareswapnbi_store_remote_yes =
    test "SHMEM/conflict/048-shmem-conflict-atomiccompareswapnbi-store-remote-yes.c"
      (racy remote_race rma_atomic_write local_store "shmem_int_compare_swap_nbi" 41 "STORE" 46 2) 2
      λ my_pe num_pe. do
        prologue 23 0 2 my_pe num_pe
        shmem 37 Call.barrier_all
        when (my_pe == 0) do shmem 41 (Call.atomic_compare_swap_nbi localbuf remote 42 1 1)
        when (my_pe == 1) do store_int 46 remote 42
        shmem 49 Call.barrier_all
        load_int 51 localbuf
        load_int 51 remote
        epilogue 53

-- SHMEM/conflict/049-shmem-conflict-atomiccompareswapnbi-atomicfetchnbi-remote-no.c
unfoldable pub atomiccompareswapnbi_atomicfetchnbi_remote_no : TestCase Call
unfolding prologue epilogue
atomiccompareswapnbi_atomicfetchnbi_remote_no =
    test "SHMEM/conflict/049-shmem-conflict-atomiccompareswapnbi-atomicfetchnbi-remote-no.c"
      (quiet 3) 3
      λ my_pe num_pe. do
        prologue 22 0 3 my_pe num_pe
        shmem 36 Call.barrier_all
        when (my_pe == 0) do shmem 39 (Call.atomic_compare_swap_nbi localbuf remote 42 1 1)
        when (my_pe == 2)
            do store_int 43 localbuf 2; shmem 45 (Call.atomic_fetch_nbi localbuf remote 1)
        shmem 48 Call.barrier_all
        load_int 50 localbuf
        load_int 50 remote
        epilogue 52

abbrev pub fetch_target_tests : List (TestCase Call)
fetch_target_tests =
    atomicfetchnbi_atomicfetchnbi_remote_no ∷ atomicfetchnbi_load_remote_no
    ∷ atomicfetchinc_atomicfetchinc_remote_no ∷ atomiccompareswapnbi_atomicfetchnbi_remote_no ∷ []
