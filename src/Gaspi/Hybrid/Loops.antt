-- ===== src/Gaspi/Hybrid/Loops.antt =====
-- #pragma omp for: tests of GASPI/hybrid.
use rmarace_bench.Base.{List, [], ◌∷◌, true, not, ◌==◌}
use rmarace_bench.Race.Access.{int, size_of}
use rmarace_bench.Race.Label.{local_race, remote_race, local_load, rma_read}
use rmarace_bench.Program.{◌>>◌, when, load_int, store_int, elem}
use rmarace_bench.Threads.Constructs.{team, for_static, for_ordered}
use rmarace_bench.TestCase.{TestCase, test, racy, quiet}
use rmarace_bench.Gaspi.Call.{place, Call, gaspi}
use rmarace_bench.Gaspi.Boilerplate.{
  loc_seg_id, remote_seg_id, queue_id, localbuf, remote_data, threaded_prologue, epilogue,
}

-- GASPI/hybrid/001-GASPI-hybrid-for-local-yes.c
unfoldable pub for_local_yes : TestCase Call
unfolding threaded_prologue epilogue
for_local_yes =
    test "GASPI/hybrid/001-GASPI-hybrid-for-local-yes.c"
      (racy local_race rma_read local_load "gaspi_read" 74 "LOAD" 78 2) 2
      λ rank num. do
        threaded_prologue true 27 2 num
        gaspi 65 Call.barrier
        when (rank == 0) do
          team 68 (
              for_static 70 (λ i.
                when (i == 0) (
                  gaspi 74 (
                    Call.read (place loc_seg_id 0) 1 (place remote_seg_id 0) (size_of int) queue_id)
                  >> gaspi 75 (Call.wait queue_id))
                >> when (not (i == 0)) (load_int 78 (elem localbuf 0))))
          gaspi 82 Call.barrier
        when (rank == 1) do gaspi 86 Call.barrier; load_int 87 (elem remote_data 0)
        epilogue 90 rank num

-- GASPI/hybrid/002-GASPI-hybrid-for-ordered-local-no.c
unfoldable pub for_ordered_local_no : TestCase Call
unfolding threaded_prologue epilogue
for_ordered_local_no =
    test "GASPI/hybrid/002-GASPI-hybrid-for-ordered-local-no.c" (quiet 2) 2 λ rank num. do
      threaded_prologue true 25 2 num
      gaspi 63 Call.barrier
      when (rank == 0) do
        team 66 (
            for_ordered (λ i.
              when (i == 0) (
                gaspi 72
                  (Call.read (place loc_seg_id 0) 1 (place remote_seg_id 0) (size_of int) queue_id)
                >> gaspi 73 (Call.wait queue_id))
              >> when (not (i == 0)) (load_int 75 (elem localbuf 0))))
        gaspi 79 Call.barrier
      when (rank == 1) do gaspi 83 Call.barrier; load_int 84 (elem remote_data 0)
      epilogue 87 rank num

-- GASPI/hybrid/011-GASPI-hybrid-for-ordered-remote-no.c
unfoldable pub for_ordered_remote_no : TestCase Call
unfolding threaded_prologue epilogue
for_ordered_remote_no =
    test "GASPI/hybrid/011-GASPI-hybrid-for-ordered-remote-no.c" (quiet 2) 2 λ rank num. do
      threaded_prologue true 25 2 num
      gaspi 63 Call.barrier
      when (rank == 0) do
        gaspi 66 (Call.read (place loc_seg_id 0) 1 (place remote_seg_id 0) (size_of int) queue_id)
        gaspi 67 (Call.wait queue_id)
        gaspi 68 Call.barrier
      when (rank == 1) do
        team 72 (
            for_ordered (λ i.
              when (i == 0) (gaspi 78 Call.barrier)
              >> when (not (i == 0)) (store_int 80 (elem remote_data 0) 42)))
      epilogue 86 rank num

-- GASPI/hybrid/012-GASPI-hybrid-for-remote-yes.c
unfoldable pub for_remote_yes : TestCase Call
unfolding threaded_prologue epilogue
for_remote_yes =
    test "GASPI/hybrid/012-GASPI-hybrid-for-remote-yes.c"
      (racy remote_race rma_read local_load "gaspi_read" 69 "STORE" 83 2) 2
      λ rank num. do
        threaded_prologue true 27 2 num
        gaspi 65 Call.barrier
        when (rank == 0) do
          gaspi 69 (Call.read (place loc_seg_id 0) 1 (place remote_seg_id 0) (size_of int) queue_id)
          gaspi 70 (Call.wait queue_id)
          gaspi 71 Call.barrier
        when (rank == 1) do
          team 75 (
              for_static 77 (λ i.
                when (i == 0) (gaspi 80 Call.barrier)
                >> when (not (i == 0)) (store_int 83 (elem remote_data 0) 42)))
        epilogue 89 rank num

abbrev pub hybrid_loop_tests : List (TestCase Call)
hybrid_loop_tests = for_ordered_local_no ∷ for_ordered_remote_no ∷ []
