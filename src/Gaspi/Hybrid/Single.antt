-- ===== src/Gaspi/Hybrid/Single.antt =====
-- #pragma omp master and single: tests of GASPI/hybrid.
use rmarace_bench.Base.{List, [], ◌∷◌, true, ◌==◌}
use rmarace_bench.Race.Access.{int, size_of}
use rmarace_bench.Race.Label.{local_race, remote_race, local_load, rma_read}
use rmarace_bench.Program.{◌>>◌, when, load_int, elem}
use rmarace_bench.Threads.Constructs.{parallel, team, after_barrier, master, single_nowait, single}
use rmarace_bench.TestCase.{TestCase, test, racy, quiet}
use rmarace_bench.Gaspi.Call.{place, Call, gaspi}
use rmarace_bench.Gaspi.Boilerplate.{
  loc_seg_id, remote_seg_id, queue_id, localbuf, remote_data, threaded_prologue, epilogue,
}

-- GASPI/hybrid/003-GASPI-hybrid-master-local-no.c
unfoldable pub master_local_no : TestCase Call
unfolding threaded_prologue epilogue
master_local_no = test "GASPI/hybrid/003-GASPI-hybrid-master-local-no.c" (quiet 2) 2 λ rank num. do
  threaded_prologue true 25 2 num
  gaspi 63 Call.barrier
  when (rank == 0) do
    parallel 66 λ thread. master thread (
        gaspi 70 (Call.read (place loc_seg_id 0) 1 (place remote_seg_id 0) (size_of int) queue_id)
        >> gaspi 71 (Call.wait queue_id))
    after_barrier 73 λ thread. load_int 74 (elem localbuf 0)
    gaspi 76 Call.barrier
  when (rank == 1) do gaspi 80 Call.barrier; load_int 81 (elem remote_data 0)
  epilogue 84 rank num

-- GASPI/hybrid/004-GASPI-hybrid-master-local-yes.c
unfoldable pub master_local_yes : TestCase Call
unfolding threaded_prologue epilogue
master_local_yes =
    test "GASPI/hybrid/004-GASPI-hybrid-master-local-yes.c"
      (racy local_race rma_read local_load "gaspi_read" 73 "LOAD" 78 2) 2
      λ rank num. do
        threaded_prologue true 27 2 num
        gaspi 65 Call.barrier
        when (rank == 0) do
          parallel 68 λ thread.
              master thread (
                gaspi 73
                  (Call.read (place loc_seg_id 0) 1 (place remote_seg_id 0) (size_of int) queue_id)
                >> gaspi 74 (Call.wait queue_id))
              >> load_int 78 (elem localbuf 0)
          gaspi 80 Call.barrier
        when (rank == 1) do gaspi 84 Call.barrier; load_int 85 (elem remote_data 0)
        epilogue 88 rank num

-- GASPI/hybrid/005-GASPI-hybrid-single-local-no.c
unfoldable pub single_local_no : TestCase Call
unfolding threaded_prologue epilogue
single_local_no = test "GASPI/hybrid/005-GASPI-hybrid-single-local-no.c" (quiet 2) 2 λ rank num. do
  threaded_prologue true 25 2 num
  gaspi 63 Call.barrier
  when (rank == 0) do
    team 66 (
        single (
          gaspi 70 (Call.read (place loc_seg_id 0) 1 (place remote_seg_id 0) (size_of int) queue_id)
          >> gaspi 71 (Call.wait queue_id))
        >> (after_barrier 73 λ thread. load_int 74 (elem localbuf 0)))
    gaspi 76 Call.barrier
  when (rank == 1) do gaspi 80 Call.barrier; load_int 81 (elem remote_data 0)
  epilogue 84 rank num

-- GASPI/hybrid/006-GASPI-hybrid-single-local-yes.c
unfoldable pub single_local_yes : TestCase Call
unfolding threaded_prologue epilogue
single_local_yes =
    test "GASPI/hybrid/006-GASPI-hybrid-single-local-yes.c"
      (racy local_race rma_read local_load "gaspi_read" 73 "LOAD" 78 2) 2
      λ rank num. do
        threaded_prologue true 27 2 num
        gaspi 65 Call.barrier
        when (rank == 0) do
          parallel 68 λ thread.
              single_nowait thread (
                gaspi 73
                  (Call.read (place loc_seg_id 0) 1 (place remote_seg_id 0) (size_of int) queue_id)
                >> gaspi 74 (Call.wait queue_id))
              >> load_int 78 (elem localbuf 0)
          gaspi 80 Call.barrier
        when (rank == 1) do gaspi 84 Call.barrier; load_int 85 (elem remote_data 0)
        epilogue 88 rank num

-- GASPI/hybrid/013-GASPI-hybrid-master-remote-no.c
unfoldable pub master_remote_no : TestCase Call
unfolding threaded_prologue epilogue
master_remote_no = test "GASPI/hybrid/013-GASPI-hybrid-master-remote-no.c" (quiet 2) 2 λ rank num.
    do
      threaded_prologue true 25 2 num
      gaspi 63 Call.barrier
      when (rank == 0) do
        gaspi 66 (
            Call.write_notify (place loc_seg_id 0) 1 (place remote_seg_id 0) (size_of int) 0 1
              queue_id)
        gaspi 67 (Call.wait queue_id)
      when (rank == 1) do
        parallel 71 λ thread. master thread (gaspi 76 (Call.notify_waitsome remote_seg_id 0 1))
        after_barrier 78 λ thread. load_int 79 (elem remote_data 0)
      epilogue 83 rank num

-- GASPI/hybrid/014-GASPI-hybrid-master-remote-yes.c
unfoldable pub master_remote_yes : TestCase Call
unfolding threaded_prologue epilogue
master_remote_yes =
    test "GASPI/hybrid/014-GASPI-hybrid-master-remote-yes.c"
      (racy remote_race rma_read local_load "gaspi_write_notify" 69 "LOAD" 82 2) 2
      λ rank num. do
        threaded_prologue true 27 2 num
        gaspi 65 Call.barrier
        when (rank == 0) do
          gaspi 69 (
              Call.write_notify (place loc_seg_id 0) 1 (place remote_seg_id 0) (size_of int) 0 1
                queue_id)
          gaspi 70 (Call.wait queue_id)
        when (rank == 1) do
          parallel 74 λ thread.
              master thread (gaspi 79 (Call.notify_waitsome remote_seg_id 0 1))
              >> load_int 82 (elem remote_data 0)
        epilogue 86 rank num

-- GASPI/hybrid/015-GASPI-hybrid-single-remote-no.c
unfoldable pub single_remote_no : TestCase Call
unfolding threaded_prologue epilogue
single_remote_no = test "GASPI/hybrid/015-GASPI-hybrid-single-remote-no.c" (quiet 2) 2 λ rank num.
    do
      threaded_prologue true 25 2 num
      gaspi 63 Call.barrier
      when (rank == 0) do
        gaspi 66 (
            Call.write_notify (place loc_seg_id 0) 1 (place remote_seg_id 0) (size_of int) 0 1
              queue_id)
        gaspi 67 (Call.wait queue_id)
      when (rank == 1) do
        team 71 (
            single (gaspi 76 (Call.notify_waitsome remote_seg_id 0 1))
            >> (after_barrier 78 λ thread. load_int 79 (elem remote_data 0)))
      epilogue 83 rank num

-- GASPI/hybrid/016-GASPI-hybrid-single-remote-yes.c
unfoldable pub single_remote_yes : TestCase Call
unfolding threaded_prologue epilogue
single_remote_yes =
    test "GASPI/hybrid/016-GASPI-hybrid-single-remote-yes.c"
      (racy remote_race rma_read local_load "gaspi_write_notify" 69 "LOAD" 82 2) 2
      λ rank num. do
        threaded_prologue true 27 2 num
        gaspi 65 Call.barrier
        when (rank == 0) do
          gaspi 69 (
              Call.write_notify (place loc_seg_id 0) 1 (place remote_seg_id 0) (size_of int) 0 1
                queue_id)
          gaspi 70 (Call.wait queue_id)
        when (rank == 1) do
          parallel 74 λ thread.
              single_nowait thread (gaspi 79 (Call.notify_waitsome remote_seg_id 0 1))
              >> load_int 82 (elem remote_data 0)
        epilogue 86 rank num

abbrev pub hybrid_single_tests : List (TestCase Call)
hybrid_single_tests = master_local_no ∷ single_local_no ∷ master_remote_no ∷ single_remote_no ∷ []
