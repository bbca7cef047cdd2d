-- ===== src/Shmem/Conflict/LocalFetch.antt =====
-- A nonblocking atomic operation and a second use of its local buffer: tests of SHMEM/conflict.
use rmarace_bench.Base.{List, [], ◌∷◌, ◌==◌}
use rmarace_bench.Race.Label.{local_race, buffer_write, local_load, local_store}
use rmarace_bench.Program.{◌>>◌, when, load_int, store_int}
use rmarace_bench.TestCase.{TestCase, test, racy}
use rmarace_bench.Shmem.Call.{Call, shmem}
use rmarace_bench.Shmem.Boilerplate.{remote, localbuf, prologue, epilogue}

-- SHMEM/conflict/010-shmem-conflict-atomicfetchnbi-store-local-yes.c
unfoldable pub atomicfetchnbi_store_local_yes : TestCase Call
unfolding prologue epilogue
atomicfetchnbi_store_local_yes =
    test "SHMEM/conflict/010-shmem-conflict-atomicfetchnbi-store-local-yes.c"
      (racy local_race buffer_write local_store "shmem_int_atomic_fetch" 41 "STORE" 43 2) 2
      λ my_pe num_pe. do
        prologue 23 0 2 my_pe num_pe
        shmem 37 Call.barrier_all
        when (my_pe == 0)
            do shmem 41 (Call.atomic_fetch_nbi localbuf remote 1); store_int 43 localbuf 42
        shmem 46 Call.barrier_all
        load_int 48 localbuf
        load_int 48 remote
        epilogue 50

-- SHMEM/conflict/011-shmem-conflict-atomicfetchnbi-load-local-yes.c
unfoldable pub atomicfetchnbi_load_local_yes : TestCase Call
unfolding prologue epilogue
atomicfetchnbi_load_local_yes =
    test "SHMEM/conflict/011-shmem-conflict-atomicfetchnbi-load-local-yes.c"
      (racy local_race buffer_write local_load "shmem_int_atomic_fetch" 41 "LOAD" 43 2) 2
      λ my_pe num_pe. do
        prologue 23 0 2 my_pe num_pe
        shmem 37 Call.barrier_all
        when (my_pe == 0)
            do shmem 41 (Call.atomic_fetch_nbi localbuf remote 1); load_int 43 localbuf
        shmem 46 Call.barrier_all
        load_int 48 localbuf
        load_int 48 remote
        epilogue 50

-- SHMEM/conflict/012-shmem-conflict-atomicfetchincnbi-store-local-yes.c
unfoldable pub atomicfetchincnbi_store_local_yes : TestCase Call
unfolding prologue epilogue
atomicfetchincnbi_store_local_yes =
    test "SHMEM/conflict/012-shmem-conflict-atomicfetchincnbi-store-local-yes.c"
      (racy local_race buffer_write local_store "shmem_int_atomic_fetch_inc_nbi" 41 "STORE" 43 2) 2
      λ my_pe num_pe. do
        prologue 23 0 2 my_pe num_pe
        shmem 37 Call.barrier_all
        when (my_pe == 0)
            do shmem 41 (Call.atomic_fetch_inc_nbi localbuf remote 1); store_int 43 localbuf 42
        shmem 46 Call.barrier_all
        load_int 48 localbuf
        load_int 48 remote
        epilogue 50

-- SHMEM/conflict/013-shmem-conflict-atomicfetchincnbi-load-local-yes.c
unfoldable pub atomicfetchincnbi_load_local_yes : TestCase Call
unfolding prologue epilogue
atomicfetchincnbi_load_local_yes =
    test "SHMEM/conflict/013-shmem-conflict-atomicfetchincnbi-load-local-yes.c"
      (racy local_race buffer_write local_load "shmem_int_atomic_fetch_inc_nbi" 41 "LOAD" 43 2) 2
      λ my_pe num_pe. do
        prologue 23 0 2 my_pe num_pe
        shmem 37 Call.barrier_all
        when (my_pe == 0)
            do shmem 41 (Call.atomic_fetch_inc_nbi localbuf remote 1); load_int 43 localbuf
        shmem 46 Call.barrier_all
        load_int 48 localbuf
        load_int 48 remote
        epilogue 50

-- SHMEM/conflict/014-shmem-conflict-atomiccompareswapnbi-load-local-yes.c
unfoldable pub atomiccompareswapnbi_load_local_yes : TestCase Call
unfolding prologue epilogue
atomiccompareswapnbi_load_local_yes =
    test "SHMEM/conflict/014-shmem-conflict-atomiccompareswapnbi-load-local-yes.c"
      (racy local_race buffer_write local_load "shmem_int_compare_swap_nbi" 41 "LOAD" 43 2) 2
      λ my_pe num_pe. do
        prologue 23 0 2 my_pe num_pe
        shmem 37 Call.barrier_all
        when (my_pe == 0)
            do shmem 41 (Call.atomic_compare_swap_nbi localbuf remote 42 1 1); load_int 43 localbuf
        shmem 46 Call.barrier_all
        load_int 48 localbuf
        load_int 48 remote
        epilogue 50

-- SHMEM/conflict/015-shmem-conflict-atomiccompareswapnbi-store-local-yes.c
unfoldable pub atomiccompareswapnbi_store_local_yes : TestCase Call
unfolding prologue epilogue
atomiccompareswapnbi_store_local_yes =
    test "SHMEM/conflict/015-shmem-conflict-atomiccompareswapnbi-store-local-yes.c"
      (racy local_race buffer_write local_store "shmem_int_compare_swap_nbi" 41 "STORE" 43 2) 2
      λ my_pe num_pe. do
        prologue 23 0 2 my_pe num_pe
        shmem 37 Call.barrier_all
        when (my_pe == 0) do
          shmem 41 (Call.atomic_compare_swap_nbi localbuf remote 42 1 1)
          store_int 43 localbuf 42
        shmem 46 Call.barrier_all
        load_int 48 localbuf
        load_int 48 remote
        epilogue 50

abbrev pub local_fetch_tests : List (TestCase Call)
local_fetch_tests = atomicfetchincnbi_store_local_yes ∷ atomicfetchincnbi_load_local_yes ∷ []
