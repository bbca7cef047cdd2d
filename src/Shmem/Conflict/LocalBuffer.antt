-- ===== src/Shmem/Conflict/LocalBuffer.antt =====
-- A put, get or put with signal and a second use of its local buffer: tests of SHMEM/conflict.
use rmarace_bench.Base.{List, [], ◌∷◌, ◌==◌}
use rmarace_bench.Race.Label.{local_race, buffer_read, buffer_write, local_load, local_store}
use rmarace_bench.Program.{◌>>◌, when, load_int, store_int, addr}
use rmarace_bench.TestCase.{TestCase, test, racy, quiet}
use rmarace_bench.Shmem.Call.{Call, shmem}
use rmarace_bench.Shmem.Boilerplate.{remote, localbuf, prologue, epilogue}

-- SHMEM/conflict/001-shmem-conflict-putnbi-load-local-no.c
unfoldable pub putnbi_load_local_no : TestCase Call
unfolding prologue epilogue
putnbi_load_local_no =
    test "SHMEM/conflict/001-shmem-conflict-putnbi-load-local-no.c" (quiet 2) 2 λ my_pe num_pe. do
      prologue 22 0 2 my_pe num_pe
      shmem 36 Call.barrier_all
      when (my_pe == 0) do shmem 39 (Call.put_nbi remote localbuf 1 1); load_int 40 localbuf
      shmem 43 Call.barrier_all
      load_int 45 localbuf
      load_int 45 remote
      epilogue 47

-- SHMEM/conflict/002-shmem-conflict-putnbi-store-local-yes.c
unfoldable pub putnbi_store_local_yes : TestCase Call
unfolding prologue epilogue
putnbi_store_local_yes =
    test "SHMEM/conflict/002-shmem-conflict-putnbi-store-local-yes.c"
      (racy local_race buffer_read local_store "shmem_int_put_nbi" 41 "STORE" 43 2) 2
      λ my_pe num_pe. do
        prologue 23 0 2 my_pe num_pe
        shmem 37 Call.barrier_all
        when (my_pe == 0) do shmem 41 (Call.put_nbi remote localbuf 1 1); store_int 43 localbuf 42
        shmem 46 Call.barrier_all
        load_int 48 localbuf
        load_int 48 remote
        epilogue 50

-- SHMEM/conflict/003-shmem-conflict-putnbi-putnbi-local-no.c
unfoldable pub putnbi_putnbi_local_no : TestCase Call
unfolding prologue epilogue
putnbi_putnbi_local_no =
    test "SHMEM/conflict/003-shmem-conflict-putnbi-putnbi-local-no.c" (quiet 2) 2 λ my_pe num_pe. do
      prologue 22 0 2 my_pe num_pe
      shmem 36 Call.barrier_all
      when (my_pe == 0) do
        shmem 39 (Call.put_nbi remote localbuf 1 1)
        shmem 40 (Call.put_nbi remote localbuf 1 0)
      shmem 43 Call.barrier_all
      load_int 45 localbuf
      load_int 45 remote
      epilogue 47

-- SHMEM/conflict/004-shmem-conflict-getnbi-load-local-yes.c
unfoldable pub getnbi_load_local_yes : TestCase Call
unfolding prologue epilogue
getnbi_load_local_yes =
    test "SHMEM/conflict/004-shmem-conflict-getnbi-load-local-yes.c"
      (racy local_race buffer_write local_load "shmem_int_get_nbi" 41 "LOAD" 43 2) 2
      λ my_pe num_pe. do
        prologue 23 0 2 my_pe num_pe
        shmem 37 Call.barrier_all
        when (my_pe == 0) do shmem 41 (Call.get_nbi localbuf remote 1 1); load_int 43 localbuf
        shmem 46 Call.barrier_all
        load_int 48 localbuf
        load_int 48 remote
        epilogue 50

-- SHMEM/conflict/005-shmem-conflict-getnbi-store-local-yes.c
unfoldable pub getnbi_store_local_yes : TestCase Call
unfolding prologue epilogue
getnbi_store_local_yes =
    test "SHMEM/conflict/005-shmem-conflict-getnbi-store-local-yes.c"
      (racy local_race buffer_write local_store "shmem_int_get_nbi" 41 "STORE" 43 2) 2
      λ my_pe num_pe. do
        prologue 23 0 2 my_pe num_pe
        shmem 37 Call.barrier_all
        when (my_pe == 0) do shmem 41 (Call.get_nbi localbuf remote 1 1); store_int 43 localbuf 42
        shmem 46 Call.barrier_all
        load_int 48 localbuf
        load_int 48 remote
        epilogue 50

-- SHMEM/conflict/006-shmem-conflict-getnbi-putnbi-local-yes.c
unfoldable pub getnbi_putnbi_local_yes : TestCase Call
unfolding prologue epilogue
getnbi_putnbi_local_yes =
    test "SHMEM/conflict/006-shmem-conflict-getnbi-putnbi-local-yes.c"
      (racy local_race buffer_write buffer_read "shmem_int_get_nbi" 41 "shmem_int_put_nbi" 43 2) 2
      λ my_pe num_pe. do
        prologue 23 0 2 my_pe num_pe
        shmem 37 Call.barrier_all
        when (my_pe == 0) do
          shmem 41 (Call.get_nbi localbuf remote 1 1)
          shmem 43 (Call.put_nbi remote localbuf 1 1)
        shmem 46 Call.barrier_all
        load_int 48 localbuf
        load_int 48 remote
        epilogue 50

-- SHMEM/conflict/007-shmem-conflict-getnbi-getnbi-local-yes.c
unfoldable pub getnbi_getnbi_local_yes : TestCase Call
unfolding prologue epilogue
getnbi_getnbi_local_yes =
    test "SHMEM/conflict/007-shmem-conflict-getnbi-getnbi-local-yes.c"
      (racy local_race buffer_write buffer_write "shmem_int_get_nbi" 41 "shmem_int_get_nbi" 43 2) 2
      λ my_pe num_pe. do
        prologue 23 0 2 my_pe num_pe
        shmem 37 Call.barrier_all
        when (my_pe == 0) do
          shmem 41 (Call.get_nbi localbuf remote 1 1)
          shmem 43 (Call.get_nbi localbuf remote 1 1)
        shmem 46 Call.barrier_all
        load_int 48 localbuf
        load_int 48 remote
        epilogue 50

-- SHMEM/conflict/008-shmem-conflict-put_signal_nbi-store-local-yes.c
unfoldable pub put_signal_nbi_store_local_yes : TestCase Call
unfolding prologue epilogue
put_signal_nbi_store_local_yes =
    test "SHMEM/conflict/008-shmem-conflict-put_signal_nbi-store-local-yes.c"
      (racy local_race buffer_read local_store "shmem_int_put_signal_nbi" 42 "STORE" 44 2) 2
      λ my_pe num_pe. do
        prologue 23 1 2 my_pe num_pe
        shmem 38 Call.barrier_all
        when (my_pe == 0) do
          shmem 42 (Call.put_signal_nbi remote localbuf 1 (addr "psn_sig_addr") 1 1)
          store_int 44 localbuf 42
        shmem 47 Call.barrier_all
        load_int 49 localbuf
        load_int 49 remote
        epilogue 51

-- SHMEM/conflict/009-shmem-conflict-put_signal_nbi-load-local-no.c
unfoldable pub put_signal_nbi_load_local_no : TestCase Call
unfolding prologue epilogue
put_signal_nbi_load_local_no =
    test "SHMEM/conflict/009-shmem-conflict-put_signal_nbi-load-local-no.c" (quiet 2) 2
      λ my_pe num_pe. do
        prologue 22 1 2 my_pe num_pe
        shmem 37 Call.barrier_all
        when (my_pe == 0) do
          shmem 40 (Call.put_signal_nbi remote localbuf 1 (addr "psn_sig_addr") 1 1)
          load_int 41 localbuf
        shmem 44 Call.barrier_all
        load_int 46 localbuf
        load_int 46 remote
        epilogue 48

abbrev pub local_buffer_tests : List (TestCase Call)
local_buffer_tests =
    putnbi_load_local_no ∷ putnbi_store_local_yes ∷ putnbi_putnbi_local_no ∷ getnbi_load_local_yes
    ∷ getnbi_store_local_yes ∷ getnbi_putnbi_local_yes ∷ getnbi_getnbi_local_yes
    ∷ put_signal_nbi_store_local_yes ∷ put_signal_nbi_load_local_no ∷ []
