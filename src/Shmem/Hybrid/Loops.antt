-- ===== src/Shmem/Hybrid/Loops.antt =====
-- #pragma omp for: tests of SHMEM/hybrid.
use rmarace_bench.Base.{List, [], ◌∷◌, not, ◌==◌}
use rmarace_bench.Race.Label.{local_race, remote_race, local_load, rma_read, rma_write}
use rmarace_bench.Program.{◌>>◌, when, load_int}
use rmarace_bench.Threads.Constructs.{team, for_static, for_ordered}
use rmarace_bench.TestCase.{TestCase, test, racy, quiet}
use rmarace_bench.Shmem.Call.{Call, shmem}
use rmarace_bench.Shmem.Boilerplate.{remote, localbuf, prologue, epilogue}

-- SHMEM/hybrid/001-shmem-hybrid-for-local-yes.c
unfoldable pub for_local_yes : TestCase Call
unfolding prologue epilogue
for_local_yes =
    test "SHMEM/hybrid/001-shmem-hybrid-for-local-yes.c"
      (racy local_race rma_read local_load "shmem_get_nbi" 47 "LOAD" 51 2) 2
      λ my_pe num_pe. do
        prologue 25 0 2 my_pe num_pe
        when (my_pe == 0) do
          team 41 (
              for_static 43 (λ i.
                when (i == 0)
                  (shmem 47 (Call.get_nbi_generic localbuf remote 1 1) >> shmem 48 Call.quiet)
                >> when (not (i == 0)) (load_int 51 localbuf)))
          shmem 55 Call.sync_all
        when (my_pe == 1) do shmem 59 Call.sync_all; load_int 60 remote
        epilogue 63

-- SHMEM/hybrid/002-shmem-hybrid-for-ordered-local-no.c
unfoldable pub for_ordered_local_no : TestCase Call
unfolding prologue epilogue
for_ordered_local_no =
    test "SHMEM/hybrid/002-shmem-hybrid-for-ordered-local-no.c" (quiet 2) 2 λ my_pe num_pe. do
      prologue 23 0 2 my_pe num_pe
      when (my_pe == 0) do
        team 39 (
            for_ordered (λ i.
              when (i == 0)
                (shmem 45 (Call.get_nbi_generic localbuf remote 1 1) >> shmem 46 Call.quiet)
              >> when (not (i == 0)) (load_int 48 localbuf)))
        shmem 52 Call.sync_all
      when (my_pe == 1) do shmem 56 Call.sync_all; load_int 57 remote
      epilogue 60

-- SHMEM/hybrid/011-shmem-hybrid-for-ordered-remote-no.c
unfoldable pub for_ordered_remote_no : TestCase Call
unfolding prologue epilogue
for_ordered_remote_no =
    test "SHMEM/hybrid/011-shmem-hybrid-for-ordered-remote-no.c" (quiet 2) 2 λ my_pe num_pe. do
      prologue 23 0 2 my_pe num_pe
      when (my_pe == 0) do
        shmem 39 (Call.put_nbi_generic remote localbuf 1 1)
        shmem 40 Call.quiet
        shmem 41 Call.sync_all
      when (my_pe == 1) do
        team 45 (
            for_ordered (λ i.
              when (i == 0) (shmem 51 Call.sync_all) >> when (not (i == 0)) (load_int 53 remote)))
      epilogue 59

-- SHMEM/hybrid/012-shmem-hybrid-for-remote-yes.c
unfoldable pub for_remote_yes : TestCase Call
unfolding prologue epilogue
for_remote_yes =
    test "SHMEM/hybrid/012-shmem-hybrid-for-remote-yes.c"
      (racy remote_race rma_write local_load "shmem_put_nbi" 42 "LOAD" 56 2) 2
      λ my_pe num_pe. do
        prologue 25 0 2 my_pe num_pe
        when (my_pe == 0) do
          shmem 42 (Call.put_nbi_generic remote localbuf 1 1)
          shmem 43 Call.quiet
          shmem 44 Call.sync_all
        when (my_pe == 1) do
          team 48 (
              for_static 50 (λ i.
                when (i == 0) (shmem 53 Call.sync_all) >> when (not (i == 0)) (load_int 56 remote)))
        epilogue 62

abbrev pub hybrid_loop_tests : List (TestCase Call)
hybrid_loop_tests = for_ordered_local_no ∷ for_ordered_remote_no ∷ for_remote_yes ∷ []
