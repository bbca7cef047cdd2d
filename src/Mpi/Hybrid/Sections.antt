-- ===== src/Mpi/Hybrid/Sections.antt =====
-- #pragma omp sections: tests of MPIRMA/hybrid.
use rmarace_bench.Base.{List, [], ◌∷◌, true, ◌==◌}
use rmarace_bench.Race.Access.{int}
use rmarace_bench.Race.Label.{local_race, remote_race, local_load, rma_read, rma_write}
use rmarace_bench.Program.{◌>>◌, when, load_int, store_int, addr, elem}
use rmarace_bench.Threads.Constructs.{team, section, sections}
use rmarace_bench.TestCase.{TestCase, test, racy, quiet}
use rmarace_bench.Mpi.Call.{lock_exclusive, Call, mpi}
use rmarace_bench.Mpi.Boilerplate.{value, win, win_base, threaded_prologue, epilogue}

-- MPIRMA/hybrid/007-MPI-hybrid-section-local-yes.c
unfoldable pub section_local_yes : TestCase Call
unfolding threaded_prologue epilogue
section_local_yes =
    test "MPIRMA/hybrid/007-MPI-hybrid-section-local-yes.c"
      (racy local_race rma_read local_load "MPI_Get" 66 "LOAD" 73 2) 2
      λ rank size. do
        threaded_prologue true 26 2 rank size
        mpi 55 Call.barrier
        when (rank == 0) do
          team 58 (
              sections 60
                (mpi 64 (Call.win_lock lock_exclusive 1 0 win)
                  >> mpi 66 (Call.get (elem win_base 0) 1 int 1 0 1 int win)
                  >> mpi 67 (Call.win_unlock 1 win))
                (load_int 73 (elem win_base 0)))
          mpi 77 Call.barrier
        when (rank == 1) do mpi 81 Call.barrier; load_int 82 (elem win_base 0)
        epilogue 85

-- MPIRMA/hybrid/008-MPI-hybrid-section-local-no.c
unfoldable pub section_local_no : TestCase Call
unfolding threaded_prologue epilogue
section_local_no = test "MPIRMA/hybrid/008-MPI-hybrid-section-local-no.c" (quiet 2) 2 λ rank size.
    do
      threaded_prologue true 24 2 rank size
      mpi 53 Call.barrier
      when (rank == 0) do
        team 56 (
            section (
              mpi 62 (Call.win_lock lock_exclusive 1 0 win)
              >> mpi 63 (Call.get (elem win_base 0) 1 int 1 0 1 int win)
              >> mpi 64 (Call.win_unlock 1 win))
            >> section (load_int 71 (elem win_base 0)))
        mpi 74 Call.barrier
      when (rank == 1) do mpi 78 Call.barrier; load_int 79 (elem win_base 0)
      epilogue 82

-- MPIRMA/hybrid/017-MPI-hybrid-section-remote-yes.c
unfoldable pub section_remote_yes : TestCase Call
unfolding threaded_prologue epilogue
section_remote_yes =
    test "MPIRMA/hybrid/017-MPI-hybrid-section-remote-yes.c"
      (racy remote_race rma_write local_load "MPI_Put" 61 "LOAD" 77 2) 2
      λ rank size. do
        threaded_prologue true 26 2 rank size
        mpi 55 Call.barrier
        when (rank == 0) do
          mpi 58 (Call.win_lock lock_exclusive 1 0 win)
          store_int 59 value 42
          mpi 61 (Call.put value 1 int 1 0 1 int win)
          mpi 62 (Call.win_unlock 1 win)
          mpi 63 Call.barrier
        when (rank == 1)
            do team 67 (sections 69 (mpi 72 Call.barrier) (load_int 77 (elem win_base 0)))
        epilogue 83

-- MPIRMA/hybrid/018-MPI-hybrid-section-remote-no.c
unfoldable pub section_remote_no : TestCase Call
unfolding threaded_prologue epilogue
section_remote_no = test "MPIRMA/hybrid/018-MPI-hybrid-section-remote-no.c" (quiet 2) 2 λ rank size.
    do
      threaded_prologue true 24 2 rank size
      mpi 53 Call.barrier
      when (rank == 0) do
        mpi 56 (Call.win_lock lock_exclusive 1 0 win)
        store_int 57 value 42
        mpi 58 (Call.put value 1 int 1 0 1 int win)
        mpi 59 (Call.win_unlock 1 win)
        mpi 60 Call.barrier
      when (rank == 1)
          do team 64 (section (mpi 69 Call.barrier) >> section (load_int 75 (elem win_base 0)))
      epilogue 80

-- MPIRMA/hybrid/021-MPI-hybrid-section-barrier-origin-remote-yes.c
unfoldable pub section_barrier_origin_remote_yes : TestCase Call
unfolding threaded_prologue epilogue
section_barrier_origin_remote_yes =
    test "MPIRMA/hybrid/021-MPI-hybrid-section-barrier-origin-remote-yes.c"
      (racy remote_race rma_write local_load "MPI_Put" 67 "LOAD" 83 2) 2
      λ rank size. do
        threaded_prologue true 27 2 rank size
        mpi 55 Call.barrier
        when (rank == 0) do
          let inner = addr "value of line 64"
          team 58 (
              sections 60
                (store_int 64 inner 42
                  >> mpi 65 (Call.win_lock lock_exclusive 1 0 win)
                  >> mpi 67 (Call.put inner 1 int 1 0 1 int win)
                  >> mpi 68 (Call.win_unlock 1 win))
                (mpi 73 (Call.sleep 1) >> mpi 74 Call.barrier))
        when (rank == 1) do mpi 81 Call.barrier; load_int 83 (elem win_base 0)
        epilogue 86

-- MPIRMA/hybrid/022-MPI-hybrid-section-sendrecv-origin-remote-yes.c
unfoldable pub section_sendrecv_origin_remote_yes : TestCase Call
unfolding threaded_prologue epilogue
section_sendrecv_origin_remote_yes =
    test "MPIRMA/hybrid/022-MPI-hybrid-section-sendrecv-origin-remote-yes.c"
      (racy remote_race rma_write local_load "MPI_Put" 67 "LOAD" 87 2) 2
      λ rank size. do
        threaded_prologue true 27 2 rank size
        mpi 55 Call.barrier
        when (rank == 0) do
          let inner = addr "value of line 64"
          let dummy = addr "dummy of line 74"
          team 58 (
              sections 60
                (store_int 64 inner 42
                  >> mpi 65 (Call.win_lock lock_exclusive 1 0 win)
                  >> mpi 67 (Call.put inner 1 int 1 0 1 int win)
                  >> mpi 68 (Call.win_unlock 1 win))
                (mpi 73 (Call.sleep 1)
                  >> store_int 74 dummy 1
                  >> mpi 75 (Call.send dummy 1 int 1 1)))
        when (rank == 1) do
          let dummy = addr "dummy of line 83"
          mpi 84 (Call.recv dummy 1 int 0 1)
          load_int 87 (elem win_base 0)
        epilogue 90

abbrev pub hybrid_section_tests : List (TestCase Call)
hybrid_section_tests =
    section_local_no ∷ section_remote_yes ∷ section_remote_no ∷ section_barrier_origin_remote_yes
    ∷ section_sendrecv_origin_remote_yes ∷ []
