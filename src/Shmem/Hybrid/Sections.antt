-- ===== src/Shmem/Hybrid/Sections.antt =====
-- #pragma omp sections: tests of SHMEM/hybrid.
use rmarace_bench.Base.{List, [], ◌∷◌, ◌==◌}
use rmarace_bench.Race.Label.{local_race, remote_race, local_load, rma_read, rma_write}
use rmarace_bench.Program.{◌>>◌, when, load_int, store_int, addr}
use rmarace_bench.Threads.Constructs.{team, section, sections}
use rmarace_bench.TestCase.{TestCase, test, racy, quiet}
use rmarace_bench.Shmem.Call.{Call, shmem}
use rmarace_bench.Shmem.Boilerplate.{remote, localbuf, prologue, epilogue}

-- SHMEM/hybrid/007-shmem-hybrid-section-local-no.c
unfoldable pub section_local_no : TestCase Call
unfolding prologue epilogue
section_local_no =
    test "SHMEM/hybrid/007-shmem-hybrid-section-local-no.c" (quiet 2) 2 λ my_pe num_pe. do
      prologue 23 0 2 my_pe num_pe
      when (my_pe == 0) do
        team 39 (
            section (shmem 45 (Call.get_nbi_generic localbuf remote 1 1) >> shmem 46 Call.quiet)
            >> section (load_int 53 localbuf))
        shmem 56 Call.sync_all
      when (my_pe == 1) do shmem 60 Call.sync_all; load_int 61 remote
      epilogue 64

-- SHMEM/hybrid/008-shmem-hybrid-section-local-yes.c
unfoldable pub section_local_yes : TestCase Call
unfolding prologue epilogue
section_local_yes =
    test "SHMEM/hybrid/008-shmem-hybrid-section-local-yes.c"
      (racy local_race rma_read local_load "shmem_get_nbi" 48 "LOAD" 55 2) 2
      λ my_pe num_pe. do
        prologue 25 0 2 my_pe num_pe
        when (my_pe == 0) do
          team 41 (
              sections 43
                (shmem 48 (Call.get_nbi_generic localbuf remote 1 1) >> shmem 49 Call.quiet)
                (load_int 55 localbuf))
          shmem 59 Call.sync_all
        when (my_pe == 1) do shmem 63 Call.sync_all; load_int 64 remote
        epilogue 67

-- SHMEM/hybrid/017-shmem-hybrid-section-remote-no.c
unfoldable pub section_remote_no : TestCase Call
unfolding prologue epilogue
section_remote_no =
    test "SHMEM/hybrid/017-shmem-hybrid-section-remote-no.c" (quiet 2) 2 λ my_pe num_pe. do
      prologue 23 0 2 my_pe num_pe
      when (my_pe == 0) do
        shmem 39 (Call.put_nbi_generic remote localbuf 1 1)
        shmem 40 Call.quiet
        shmem 41 Call.sync_all
      when (my_pe == 1)
          do team 45 (section (shmem 50 Call.sync_all) >> section (load_int 56 remote))
      epilogue 61

-- SHMEM/hybrid/018-shmem-hybrid-section-remote-yes.c
unfoldable pub section_remote_yes : TestCase Call
unfolding prologue epilogue
section_remote_yes =
    test "SHMEM/hybrid/018-shmem-hybrid-section-remote-yes.c"
      (racy remote_race rma_write local_load "shmem_put_nbi" 42 "LOAD" 58 2) 2
      λ my_pe num_pe. do
        prologue 25 0 2 my_pe num_pe
        when (my_pe == 0) do
          shmem 42 (Call.put_nbi_generic remote localbuf 1 1)
          shmem 43 Call.quiet
          shmem 44 Call.sync_all
        when (my_pe == 1) do team 48 (sections 50 (shmem 53 Call.sync_all) (load_int 58 remote))
        epilogue 64

-- SHMEM/hybrid/021-shmem-hybrid-lock-section-barrier-origin-remote-yes.c
unfoldable pub lock_section_barrier_origin_remote_yes : TestCase Call
unfolding prologue epilogue
lock_section_barrier_origin_remote_yes =
    test "SHMEM/hybrid/021-shmem-hybrid-lock-section-barrier-origin-remote-yes.c"
      (racy remote_race rma_write local_load "shmem_put" 51 "LOAD" 67 2) 2
      λ my_pe num_pe. do
        prologue 26 0 2 my_pe num_pe
        shmem 40 Call.barrier_all
        when (my_pe == 0) do
          team 43 (
              sections 45
                (store_int 49 (addr "value") 42
                  >> shmem 51 (Call.put remote (addr "value") 1 1)
                  >> shmem 52 Call.quiet)
                (shmem 57 (Call.sleep 1) >> shmem 58 Call.sync_all))
        when (my_pe == 1) do shmem 65 Call.sync_all; load_int 67 remote
        epilogue 70

abbrev pub hybrid_section_tests : List (TestCase Call)
hybrid_section_tests = section_local_no ∷ section_remote_no ∷ section_remote_yes ∷ []
