-- ===== src/Gaspi/Hybrid/Sections.antt =====
-- #pragma omp sections: tests of GASPI/hybrid.
use rmarace_bench.Base.{List, [], ◌∷◌, true, ◌==◌}
use rmarace_bench.Race.Access.{int, size_of}
use rmarace_bench.Race.Label.{local_race, remote_race, local_load, rma_read, rma_write}
use rmarace_bench.Program.{◌>>◌, when, load_int, store_int, elem}
use rmarace_bench.Threads.Constructs.{team, section, sections}
use rmarace_bench.TestCase.{TestCase, test, racy, quiet}
use rmarace_bench.Gaspi.Call.{place, Call, gaspi}
use rmarace_bench.Gaspi.Boilerplate.{
  loc_seg_id, remote_seg_id, queue_id, localbuf, remote_data, threaded_prologue, epilogue,
}

-- GASPI/hybrid/007-GASPI-hybrid-section-local-no.c
unfoldable pub section_local_no : TestCase Call
unfolding threaded_prologue epilogue
section_local_no = test "GASPI/hybrid/007-GASPI-hybrid-section-local-no.c" (quiet 2) 2 λ rank num.
    do
      threaded_prologue true 25 2 num
      gaspi 63 Call.barrier
      when (rank == 0) do
        team 66 (
            section (
              gaspi 72
                (Call.read (place loc_seg_id 0) 1 (place remote_seg_id 0) (size_of int) queue_id)
              >> gaspi 73 (Call.wait queue_id))
            >> section (load_int 80 (elem localbuf 0)))
        gaspi 83 Call.barrier
      when (rank == 1) do gaspi 87 Call.barrier; load_int 88 (elem remote_data 0)
      epilogue 91 rank num

-- GASPI/hybrid/008-GASPI-hybrid-section-local-yes.c
unfoldable pub section_local_yes : TestCase Call
unfolding threaded_prologue epilogue
section_local_yes =
    test "GASPI/hybrid/008-GASPI-hybrid-section-local-yes.c"
      (racy local_race rma_read local_load "gaspi_read" 75 "LOAD" 82 2) 2
      λ rank num. do
        threaded_prologue true 27 2 num
        gaspi 65 Call.barrier
        when (rank == 0) do
          team 68 (
              sections 70
                (gaspi 75 (
                    Call.read (place loc_seg_id 0) 1 (place remote_seg_id 0) (size_of int) queue_id)
                  >> gaspi 76 (Call.wait queue_id))
                (load_int 82 (elem localbuf 0)))
          gaspi 86 Call.barrier
        when (rank == 1) do gaspi 90 Call.barrier; load_int 91 (elem remote_data 0)
        epilogue 94 rank num

-- GASPI/hybrid/017-GASPI-hybrid-section-remote-no.c
unfoldable pub section_remote_no : TestCase Call
unfolding threaded_prologue epilogue
section_remote_no = test "GASPI/hybrid/017-GASPI-hybrid-section-remote-no.c" (quiet 2) 2 λ rank num.
    do
      threaded_prologue true 25 2 num
      gaspi 63 Call.barrier
      when (rank == 0) do
        gaspi 66 (Call.read (place loc_seg_id 0) 1 (place remote_seg_id 0) (size_of int) queue_id)
        gaspi 67 (Call.wait queue_id)
        gaspi 68 Call.barrier
      when (rank == 1) do
        team 72 (section (gaspi 77 Call.barrier) >> section (store_int 83 (elem remote_data 0) 42))
      epilogue 88 rank num

-- GASPI/hybrid/018-GASPI-hybrid-section-remote-yes.c
unfoldable pub section_remote_yes : TestCase Call
unfolding threaded_prologue epilogue
section_remote_yes =
    test "GASPI/hybrid/018-GASPI-hybrid-section-remote-yes.c"
      (racy remote_race rma_read local_load "gaspi_read" 69 "STORE" 85 2) 2
      λ rank num. do
        threaded_prologue true 27 2 num
        gaspi 65 Call.barrier
        when (rank == 0) do
          gaspi 69 (Call.read (place loc_seg_id 0) 1 (place remote_seg_id 0) (size_of int) queue_id)
          gaspi 70 (Call.wait queue_id)
          gaspi 71 Call.barrier
        when (rank == 1)
            do team 75 (sections 77 (gaspi 80 Call.barrier) (store_int 85 (elem remote_data 0) 42))
        epilogue 91 rank num

-- GASPI/hybrid/021-GASPI-hybrid-lock-section-barrier-origin-remote-yes.c
unfoldable pub lock_section_barrier_origin_remote_yes : TestCase Call
unfolding threaded_prologue epilogue
lock_section_barrier_origin_remote_yes =
    test "GASPI/hybrid/021-GASPI-hybrid-lock-section-barrier-origin-remote-yes.c"
      (racy remote_race rma_write local_load "gaspi_read" 77 "STORE" 93 2) 2
      λ rank num. do
        threaded_prologue true 28 2 num
        gaspi 66 Call.barrier
        gaspi 67 Call.barrier
        when (rank == 0) do
          team 70 (
              sections 72
                (gaspi 77 (
                    Call.read (place loc_seg_id 0) 1 (place remote_seg_id 0) (size_of int) queue_id)
                  >> gaspi 78 (Call.wait queue_id))
                (gaspi 83 (Call.sleep 1) >> gaspi 84 Call.barrier))
        when (rank == 1) do gaspi 91 Call.barrier; store_int 93 (elem remote_data 0) 42
        epilogue 96 rank num

-- GASPI/hybrid/022-GASPI-hybrid-lock-section-barrier-origin-p2p-remote-yes.c
unfoldable pub lock_section_barrier_origin_p2p_remote_yes : TestCase Call
unfolding threaded_prologue epilogue
lock_section_barrier_origin_p2p_remote_yes =
    test "GASPI/hybrid/022-GASPI-hybrid-lock-section-barrier-origin-p2p-remote-yes.c"
      (racy remote_race rma_write local_load "gaspi_read" 77 "STORE" 97 2) 2
      λ rank num. do
        threaded_prologue true 28 2 num
        gaspi 66 Call.barrier
        gaspi 67 Call.barrier
        when (rank == 0) do
          team 70 (
              sections 72
                (gaspi 77 (
                    Call.read (place loc_seg_id 0) 1 (place remote_seg_id 0) (size_of int) queue_id)
                  >> gaspi 78 (Call.wait queue_id))
                (gaspi 83 (Call.sleep 1) >> gaspi 84 (Call.passive_send (place loc_seg_id 0) 1 4)))
        when (rank == 1) do
          gaspi 93 (Call.passive_receive (place loc_seg_id 0) 4)
          load_int 94 (elem localbuf 0)
          store_int 97 (elem remote_data 0) 42
        epilogue 100 rank num

abbrev pub hybrid_section_tests : List (TestCase Call)
hybrid_section_tests = section_local_no ∷ section_remote_no ∷ []
