-- ===== src/Shmem/Hybrid/Single.antt =====
-- #pragma omp master and single: tests of SHMEM/hybrid.
use rmarace_bench.Base.{List, [], ◌∷◌, ◌==◌}
use rmarace_bench.Race.Label.{local_race, remote_race, local_load, rma_read, rma_write}
use rmarace_bench.Program.{◌>>◌, when, load_int}
use rmarace_bench.Threads.Constructs.{parallel, team, after_barrier, master, single_nowait, single}
use rmarace_bench.TestCase.{TestCase, test, racy, quiet}
use rmarace_bench.Shmem.Call.{Call, shmem}
use rmarace_bench.Shmem.Boilerplate.{remote, localbuf, prologue, epilogue}

-- SHMEM/hybrid/003-shmem-hybrid-master-local-no.c
unfoldable pub master_local_no : TestCase Call
unfolding prologue epilogue
master_local_no = test "SHMEM/hybrid/003-shmem-hybrid-master-local-no.c" (quiet 2) 2 λ my_pe num_pe.
    do
      prologue 23 0 2 my_pe num_pe
      when (my_pe == 0) do
        parallel 39 λ thread.
            master thread
              (shmem 43 (Call.get_nbi_generic localbuf remote 1 1) >> shmem 44 Call.quiet)
        after_barrier 46 λ thread. load_int 47 localbuf
        shmem 49 Call.sync_all
      when (my_pe == 1) do shmem 53 Call.sync_all; load_int 54 remote
      epilogue 57

-- SHMEM/hybrid/004-shmem-hybrid-master-local-yes.c
unfoldable pub master_local_yes : TestCase Call
unfolding prologue epilogue
master_local_yes =
    test "SHMEM/hybrid/004-shmem-hybrid-master-local-yes.c"
      (racy local_race rma_read local_load "shmem_get_nbi" 46 "LOAD" 51 2) 2
      λ my_pe num_pe. do
        prologue 25 0 2 my_pe num_pe
        when (my_pe == 0) do
          parallel 41 λ thread.
              master thread
                (shmem 46 (Call.get_nbi_generic localbuf remote 1 1) >> shmem 47 Call.quiet)
              >> load_int 51 localbuf
          shmem 53 Call.sync_all
        when (my_pe == 1) do shmem 57 Call.sync_all; load_int 58 remote
        epilogue 61

-- SHMEM/hybrid/005-shmem-hybrid-single-local-no.c
unfoldable pub single_local_no : TestCase Call
unfolding prologue epilogue
single_local_no = test "SHMEM/hybrid/005-shmem-hybrid-single-local-no.c" (quiet 2) 2 λ my_pe num_pe.
    do
      prologue 23 0 2 my_pe num_pe
      when (my_pe == 0) do
        team 39 (
            single (shmem 43 (Call.get_nbi_generic localbuf remote 1 1) >> shmem 44 Call.quiet)
            >> (after_barrier 46 λ thread. load_int 47 localbuf))
        shmem 49 Call.sync_all
      when (my_pe == 1) do shmem 53 Call.sync_all; load_int 54 remote
      epilogue 57

-- SHMEM/hybrid/006-shmem-hybrid-single-local-yes.c
unfoldable pub single_local_yes : TestCase Call
unfolding prologue epilogue
single_local_yes =
    test "SHMEM/hybrid/006-shmem-hybrid-single-local-yes.c"
      (racy local_race rma_read local_load "shmem_get_nbi" 46 "LOAD" 51 2) 2
      λ my_pe num_pe. do
        prologue 25 0 2 my_pe num_pe
        when (my_pe == 0) do
          parallel 41 λ thread.
              single_nowait thread
                (shmem 46 (Call.get_nbi_generic localbuf remote 1 1) >> shmem 47 Call.quiet)
              >> load_int 51 localbuf
          shmem 53 Call.sync_all
        when (my_pe == 1) do shmem 57 Call.sync_all; load_int 58 remote
        epilogue 61

-- SHMEM/hybrid/013-shmem-hybrid-master-remote-no.c
unfoldable pub master_remote_no : TestCase Call
unfolding prologue epilogue
master_remote_no =
    test "SHMEM/hybrid/013-shmem-hybrid-master-remote-no.c" (quiet 2) 2 λ my_pe num_pe. do
      prologue 23 0 2 my_pe num_pe
      when (my_pe == 0) do
        shmem 39 (Call.put_nbi_generic remote localbuf 1 1)
        shmem 40 Call.quiet
        shmem 41 Call.sync_all
      when (my_pe == 1) do
        parallel 45 λ thread. master thread (shmem 49 Call.sync_all)
        after_barrier 51 λ thread. load_int 52 remote
      epilogue 56

-- SHMEM/hybrid/014-shmem-hybrid-master-remote-yes.c
unfoldable pub master_remote_yes : TestCase Call
unfolding prologue epilogue
master_remote_yes =
    test "SHMEM/hybrid/014-shmem-hybrid-master-remote-yes.c"
      (racy remote_race rma_write local_load "shmem_put_nbi" 42 "LOAD" 55 2) 2
      λ my_pe num_pe. do
        prologue 25 0 2 my_pe num_pe
        when (my_pe == 0) do
          shmem 42 (Call.put_nbi_generic remote localbuf 1 1)
          shmem 43 Call.quiet
          shmem 44 Call.sync_all
        when (my_pe == 1)
            do parallel 48 λ thread. master thread (shmem 52 Call.sync_all) >> load_int 55 remote
        epilogue 59

-- SHMEM/hybrid/015-shmem-hybrid-single-remote-no.c
unfoldable pub single_remote_no : TestCase Call
unfolding prologue epilogue
single_remote_no =
    test "SHMEM/hybrid/015-shmem-hybrid-single-remote-no.c" (quiet 2) 2 λ my_pe num_pe. do
      prologue 23 0 2 my_pe num_pe
      when (my_pe == 0) do
        shmem 39 (Call.put_nbi_generic remote localbuf 1 1)
        shmem 40 Call.quiet
        shmem 41 Call.sync_all
      when (my_pe == 1) do
        team 45 (single (shmem 49 Call.sync_all) >> (after_barrier 51 λ thread. load_int 52 remote))
      epilogue 56

-- SHMEM/hybrid/016-shmem-hybrid-single-remote-yes.c
unfoldable pub single_remote_yes : TestCase Call
unfolding prologue epilogue
single_remote_yes =
    test "SHMEM/hybrid/016-shmem-hybrid-single-remote-yes.c"
      (racy remote_race rma_write local_load "shmem_put_nbi" 42 "LOAD" 55 2) 2
      λ my_pe num_pe. do
        prologue 25 0 2 my_pe num_pe
        when (my_pe == 0) do
          shmem 42 (Call.put_nbi_generic remote localbuf 1 1)
          shmem 43 Call.quiet
          shmem 44 Call.sync_all
        when (my_pe == 1) do
          parallel 48 λ thread. single_nowait thread (shmem 52 Call.sync_all) >> load_int 55 remote
        epilogue 59

abbrev pub hybrid_single_tests : List (TestCase Call)
hybrid_single_tests =
    master_local_no ∷ single_local_no ∷ master_remote_no ∷ master_remote_yes ∷ single_remote_no
    ∷ single_remote_yes ∷ []
