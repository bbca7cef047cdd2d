-- ===== src/Mpi/Sync/General.antt =====
-- Request-based operations, and post-start-complete-wait: tests of MPIRMA/sync.
use rmarace_bench.Base.{ℕ, List, [], ◌∷◌, not, ◌&&◌, ◌==◌}
use rmarace_bench.Race.Access.{int}
use rmarace_bench.Race.Label.{
  local_race, remote_race, buffer_write, local_load, rma_read, rma_write,
}
use rmarace_bench.Program.{◌>>◌, when, load_int, store_int, addr}
use rmarace_bench.TestCase.{TestCase, test, racy, quiet}
use rmarace_bench.Mpi.Call.{Call, mpi}
use rmarace_bench.Mpi.Boilerplate.{value, win, prologue, epilogue}

-- MPIRMA/sync/009-MPI-sync-request-local-yes.c
unfoldable pub request_local_yes : TestCase Call
unfolding prologue epilogue
request_local_yes =
    test "MPIRMA/sync/009-MPI-sync-request-local-yes.c"
      (racy local_race buffer_write local_load "MPI_Rget" 70 "LOAD" 72 2) 2
      λ rank size. do
        prologue 40 2 rank size
        mpi 64 Call.barrier
        mpi 66 (Call.win_fence 0 win)
        when (rank == 0) do
          mpi 70 (Call.rget value 1 int 1 0 1 int win "req")
          load_int 72 value
          mpi 73 (Call.wait "req")
        mpi 76 (Call.win_fence 0 win)
        epilogue 78

-- MPIRMA/sync/010-MPI-sync-request-local-no.c
unfoldable pub request_local_no : TestCase Call
unfolding prologue epilogue
request_local_no = test "MPIRMA/sync/010-MPI-sync-request-local-no.c" (quiet 2) 2 λ rank size. do
  prologue 37 2 rank size
  mpi 61 Call.barrier
  mpi 63 (Call.win_fence 0 win)
  when (rank == 0) do
    mpi 66 (Call.rget value 1 int 1 0 1 int win "req")
    mpi 67 (Call.wait "req")
    load_int 68 value
  mpi 71 (Call.win_fence 0 win)
  epilogue 73

-- MPIRMA/sync/011-MPI-sync-pscw-local-yes.c
unfoldable pub pscw_local_yes : TestCase Call
unfolding prologue epilogue
pscw_local_yes =
    test "MPIRMA/sync/011-MPI-sync-pscw-local-yes.c"
      (racy local_race buffer_write local_load "MPI_Get" 63 "LOAD" 65 2) 2
      λ rank size. do
        prologue 26 2 rank size
        mpi 51 Call.comm_group
        mpi 53 Call.barrier
        when (rank == 0) do
          let destgroup : List ℕ = 1 ∷ []
          mpi 58 (Call.group_incl destgroup)
          mpi 60 (Call.win_start destgroup 0 win)
          mpi 63 (Call.get value 1 int 1 0 1 int win)
          load_int 65 value
          mpi 66 (Call.win_complete win)
          mpi 67 (Call.group_free destgroup)
        when (not (rank == 0)) do
          let srcgroup : List ℕ = 0 ∷ []
          mpi 71 (Call.group_incl srcgroup)
          mpi 72 (Call.win_post srcgroup 0 win)
          mpi 73 (Call.win_wait win)
          mpi 74 (Call.group_free srcgroup)
        epilogue 77

-- MPIRMA/sync/012-MPI-sync-pscw-local-no.c
unfoldable pub pscw_local_no : TestCase Call
unfolding prologue epilogue
pscw_local_no = test "MPIRMA/sync/012-MPI-sync-pscw-local-no.c" (quiet 2) 2 λ rank size. do
  prologue 25 2 rank size
  mpi 50 Call.comm_group
  mpi 52 Call.barrier
  when (rank == 0) do
    let destgroup : List ℕ = 1 ∷ []
    mpi 57 (Call.group_incl destgroup)
    mpi 59 (Call.win_start destgroup 0 win)
    mpi 60 (Call.get value 1 int 1 0 1 int win)
    mpi 61 (Call.win_complete win)
    mpi 62 (Call.group_free destgroup)
    load_int 63 value
  when (not (rank == 0)) do
    let srcgroup : List ℕ = 0 ∷ []
    mpi 67 (Call.group_incl srcgroup)
    mpi 68 (Call.win_post srcgroup 0 win)
    mpi 69 (Call.win_wait win)
    mpi 70 (Call.group_free srcgroup)
  epilogue 73

-- MPIRMA/sync/034-MPI-sync-pscw-remote-no.c
unfoldable pub pscw_remote_no : TestCase Call
unfolding prologue epilogue
pscw_remote_no = test "MPIRMA/sync/034-MPI-sync-pscw-remote-no.c" (quiet 3) 3 λ rank size. do
  prologue 25 3 rank size
  mpi 54 Call.comm_group
  mpi 56 Call.barrier
  when (rank == 0) do
    let destgroup : List ℕ = 2 ∷ []
    mpi 61 (Call.group_incl destgroup)
    mpi 63 (Call.win_start destgroup 0 win)
    let inner = addr "value of line 64"
    store_int 64 inner 42
    mpi 65 (Call.put inner 1 int 2 0 1 int win)
    mpi 66 (Call.win_complete win)
    mpi 67 (Call.group_free destgroup)
  when (not (rank == 0) && rank == 1) do
    let destgroup : List ℕ = 2 ∷ []
    mpi 71 (Call.group_incl destgroup)
    mpi 72 (Call.win_start destgroup 0 win)
    let inner = addr "value of line 73"
    mpi 74 (Call.get inner 1 int 2 0 1 int win)
    mpi 75 (Call.win_complete win)
    mpi 76 (Call.group_free destgroup)
  when (not (rank == 0) && not (rank == 1) && rank == 2) do
    let srcgroup0 : List ℕ = 0 ∷ []
    mpi 81 (Call.group_incl srcgroup0)
    let srcgroup1 : List ℕ = 1 ∷ []
    mpi 85 (Call.group_incl srcgroup1)
    mpi 87 (Call.win_post srcgroup0 0 win)
    mpi 88 (Call.win_wait win)
    mpi 90 (Call.win_post srcgroup1 0 win)
    mpi 91 (Call.win_wait win)
    mpi 93 (Call.group_free srcgroup0)
    mpi 94 (Call.group_free srcgroup1)
  epilogue 97

-- MPIRMA/sync/035-MPI-sync-pscw-remote-yes.c
unfoldable pub pscw_remote_yes : TestCase Call
unfolding prologue epilogue
pscw_remote_yes =
    test "MPIRMA/sync/035-MPI-sync-pscw-remote-yes.c"
      (racy remote_race rma_write rma_read "MPI_Put" 67 "MPI_Get" 77 3) 3
      λ rank size. do
        prologue 26 3 rank size
        mpi 55 Call.comm_group
        mpi 57 Call.barrier
        when (rank == 0) do
          let destgroup : List ℕ = 2 ∷ []
          mpi 62 (Call.group_incl destgroup)
          mpi 64 (Call.win_start destgroup 0 win)
          let inner = addr "value of line 65"
          store_int 65 inner 42
          mpi 67 (Call.put inner 1 int 2 0 1 int win)
          mpi 68 (Call.win_complete win)
          mpi 69 (Call.group_free destgroup)
        when (not (rank == 0) && rank == 1) do
          let destgroup : List ℕ = 2 ∷ []
          mpi 73 (Call.group_incl destgroup)
          mpi 74 (Call.win_start destgroup 0 win)
          let inner = addr "value of line 75"
          mpi 77 (Call.get inner 1 int 2 0 1 int win)
          mpi 78 (Call.win_complete win)
          mpi 79 (Call.group_free destgroup)
        when (not (rank == 0) && not (rank == 1) && rank == 2) do
          let srcgroup : List ℕ = 0 ∷ 1 ∷ []
          mpi 84 (Call.group_incl srcgroup)
          mpi 86 (Call.win_post srcgroup 0 win)
          mpi 87 (Call.win_wait win)
          mpi 88 (Call.group_free srcgroup)
        epilogue 91

abbrev pub general_tests : List (TestCase Call)
general_tests =
    request_local_yes ∷ request_local_no ∷ pscw_local_yes ∷ pscw_local_no ∷ pscw_remote_no
    ∷ pscw_remote_yes ∷ []
