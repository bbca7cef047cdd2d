-- ===== src/Shmem/Conflict/SingleTarget.antt =====
-- A put with signal, or a transfer of one element, and a second access to its target: tests of SHMEM/conflict.
use rmarace_bench.Base.{List, [], ◌∷◌, ◌==◌}
use rmarace_bench.Race.Label.{remote_race, local_load, local_store, rma_read, rma_write}
use rmarace_bench.Program.{◌>>◌, when, load_int, store_int, store_result, addr}
use rmarace_bench.TestCase.{TestCase, test, racy}
use rmarace_bench.Shmem.Call.{Call, shmem}
use rmarace_bench.Shmem.Boilerplate.{remote, localbuf, prologue, epilogue}

-- SHMEM/conflict/034-shmem-conflict-put_signal-store-remote-yes.c
unfoldable pub put_signal_store_remote_yes : TestCase Call
unfolding prologue epilogue
put_signal_store_remote_yes =
    test "SHMEM/conflict/034-shmem-conflict-put_signal-store-remote-yes.c"
      (racy remote_race rma_write local_store "shmem_int_put_signal" 42 "STORE" 47 2) 2
      λ my_pe num_pe. do
        prologue 23 1 2 my_pe num_pe
        shmem 38 Call.barrier_all
        when (my_pe == 0) do shmem 42 (Call.put_signal remote localbuf 1 (addr "ps_sig_addr") 1 1)
        when (my_pe == 1) do store_int 47 remote 42
        shmem 50 Call.barrier_all
        load_int 52 localbuf
        load_int 52 remote
        epilogue 54

-- SHMEM/conflict/035-shmem-conflict-put_signal-put_signal-remote-yes.c
unfoldable pub put_signal_put_signal_remote_yes : TestCase Call
unfolding prologue epilogue
put_signal_put_signal_remote_yes =
    test "SHMEM/conflict/035-shmem-conflict-put_signal-put_signal-remote-yes.c"
      (racy remote_race rma_write rma_write "shmem_int_put_signal" 43 "shmem_int_put_signal" 50 3) 3
      λ my_pe num_pe. do
        prologue 23 2 3 my_pe num_pe
        shmem 39 Call.barrier_all
        when (my_pe == 0) do shmem 43 (Call.put_signal remote localbuf 1 (addr "ps_sig_addr") 1 1)
        when (my_pe == 2) do
          store_int 47 localbuf 2
          shmem 50 (Call.put_signal remote localbuf 1 (addr "ps_sig_addr2") 1 1)
        shmem 53 Call.barrier_all
        load_int 55 localbuf
        load_int 55 remote
        epilogue 57

-- SHMEM/conflict/036-shmem-conflict-g-store-remote-yes.c
unfoldable pub g_store_remote_yes : TestCase Call
unfolding prologue epilogue
g_store_remote_yes =
    test "SHMEM/conflict/036-shmem-conflict-g-store-remote-yes.c"
      (racy remote_race rma_read local_store "shmem_int_g" 41 "STORE" 46 2) 2
      λ my_pe num_pe. do
        prologue 23 0 2 my_pe num_pe
        shmem 37 Call.barrier_all
        when (my_pe == 0) do shmem 41 (Call.g remote 1); store_result 41 localbuf
        when (my_pe == 1) do store_int 46 remote 42
        shmem 49 Call.barrier_all
        load_int 51 localbuf
        load_int 51 remote
        epilogue 53

-- SHMEM/conflict/037-shmem-conflict-g-put-remote-yes.c
unfoldable pub g_put_remote_yes : TestCase Call
unfolding prologue epilogue
g_put_remote_yes =
    test "SHMEM/conflict/037-shmem-conflict-g-put-remote-yes.c"
      (racy remote_race rma_read rma_write "shmem_int_g" 41 "shmem_int_put" 48 3) 3
      λ my_pe num_pe. do
        prologue 23 0 3 my_pe num_pe
        shmem 37 Call.barrier_all
        when (my_pe == 0) do shmem 41 (Call.g remote 1); store_result 41 localbuf
        when (my_pe == 2) do store_int 45 localbuf 2; shmem 48 (Call.put remote localbuf 1 1)
        shmem 51 Call.barrier_all
        load_int 53 localbuf
        load_int 53 remote
        epilogue 55

-- SHMEM/conflict/038-shmem-conflict-p-load-remote-yes.c
unfoldable pub p_load_remote_yes : TestCase Call
unfolding prologue epilogue
p_load_remote_yes =
    test "SHMEM/conflict/038-shmem-conflict-p-load-remote-yes.c"
      (racy remote_race rma_write local_load "shmem_int_p" 41 "LOAD" 46 2) 2
      λ my_pe num_pe. do
        prologue 23 0 2 my_pe num_pe
        shmem 37 Call.barrier_all
        when (my_pe == 0) do shmem 41 (Call.p remote 42 1)
        when (my_pe == 1) do load_int 46 remote
        shmem 49 Call.barrier_all
        load_int 51 localbuf
        load_int 51 remote
        epilogue 53

-- SHMEM/conflict/039-shmem-conflict-p-get-remote-yes.c
unfoldable pub p_get_remote_yes : TestCase Call
unfolding prologue epilogue
p_get_remote_yes =
    test "SHMEM/conflict/039-shmem-conflict-p-get-remote-yes.c"
      (racy remote_race rma_write rma_read "shmem_int_p" 41 "shmem_int_get" 48 3) 3
      λ my_pe num_pe. do
        prologue 23 0 3 my_pe num_pe
        shmem 37 Call.barrier_all
        when (my_pe == 0) do shmem 41 (Call.p remote 42 1)
        when (my_pe == 2) do store_int 45 localbuf 2; shmem 48 (Call.get localbuf remote 1 1)
        shmem 51 Call.barrier_all
        load_int 53 localbuf
        load_int 53 remote
        epilogue 55

abbrev pub single_target_tests : List (TestCase Call)
single_target_tests =
    put_signal_store_remote_yes ∷ put_signal_put_signal_remote_yes ∷ g_store_remote_yes
    ∷ g_put_remote_yes ∷ p_load_remote_yes ∷ p_get_remote_yes ∷ []
