-- ===== src/Mpi/Conflict/AtomicRemote.antt =====
-- An accumulate operation and a second access to the memory of its target: tests of MPIRMA/conflict.
use rmarace_bench.Base.{List, [], ◌∷◌, none, some, ◌==◌}
use rmarace_bench.Race.Access.{int}
use rmarace_bench.Race.Label.{
  remote_race, local_load, local_store, rma_atomic_read, rma_atomic_write,
}
use rmarace_bench.Program.{◌>>◌, when, load_int, store_int, elem}
use rmarace_bench.TestCase.{TestCase, test, racy, quiet}
use rmarace_bench.Mpi.Call.{sum, no_op, Call, mpi}
use rmarace_bench.Mpi.Boilerplate.{value, value2, win, win_base, prologue, epilogue}

-- MPIRMA/conflict/027-MPI-conflict-acc-load-remote-yes.c
unfoldable pub acc_load_remote_yes : TestCase Call
unfolding prologue epilogue
acc_load_remote_yes =
    test "MPIRMA/conflict/027-MPI-conflict-acc-load-remote-yes.c"
      (racy remote_race rma_atomic_write local_load "MPI_Accumulate" 56 "LOAD" 61 2) 2
      λ rank size. do
        prologue 27 2 rank size
        mpi 51 (Call.win_fence 0 win)
        when (rank == 0) do mpi 56 (Call.accumulate value 1 int 1 0 1 int sum win)
        when (rank == 1) do load_int 61 (elem win_base 0)
        mpi 64 (Call.win_fence 0 win)
        epilogue 66

-- MPIRMA/conflict/028-MPI-conflict-acc-store-remote-yes.c
unfoldable pub acc_store_remote_yes : TestCase Call
unfolding prologue epilogue
acc_store_remote_yes =
    test "MPIRMA/conflict/028-MPI-conflict-acc-store-remote-yes.c"
      (racy remote_race rma_atomic_write local_store "MPI_Accumulate" 56 "STORE" 61 2) 2
      λ rank size. do
        prologue 27 2 rank size
        mpi 51 (Call.win_fence 0 win)
        when (rank == 0) do mpi 56 (Call.accumulate value 1 int 1 0 1 int sum win)
        when (rank == 1) do store_int 61 (elem win_base 0) 42
        mpi 64 (Call.win_fence 0 win)
        epilogue 66

-- MPIRMA/conflict/029-MPI-conflict-acc-acc-remote-no.c
unfoldable pub acc_acc_remote_no : TestCase Call
unfolding prologue epilogue
acc_acc_remote_no =
    test "MPIRMA/conflict/029-MPI-conflict-acc-acc-remote-no.c" (quiet 3) 3 λ rank size. do
      prologue 25 3 rank size
      mpi 49 (Call.win_fence 0 win)
      when (rank == 0) do mpi 52 (Call.accumulate value 1 int 1 0 1 int sum win)
      when (rank == 2)
          do store_int 56 value 2; mpi 57 (Call.accumulate value 1 int 1 0 1 int sum win)
      mpi 60 (Call.win_fence 0 win)
      epilogue 62

-- MPIRMA/conflict/030-MPI-conflict-acc-gaccread-remote-no.c
unfoldable pub acc_gaccread_remote_no : TestCase Call
unfolding prologue epilogue
acc_gaccread_remote_no =
    test "MPIRMA/conflict/030-MPI-conflict-acc-gaccread-remote-no.c" (quiet 3) 3 λ rank size. do
      prologue 25 3 rank size
      mpi 49 (Call.win_fence 0 win)
      when (rank == 0) do mpi 52 (Call.accumulate value 1 int 1 0 1 int sum win)
      when (rank == 2) do
        store_int 56 value 2
        mpi 57 (Call.get_accumulate none 0 value 1 int 1 0 1 int no_op win)
      mpi 60 (Call.win_fence 0 win)
      epilogue 62

-- MPIRMA/conflict/031-MPI-conflict-gaccread-gaccread-remote-no.c
unfoldable pub gaccread_gaccread_remote_no : TestCase Call
unfolding prologue epilogue
gaccread_gaccread_remote_no =
    test "MPIRMA/conflict/031-MPI-conflict-gaccread-gaccread-remote-no.c" (quiet 3) 3 λ rank size.
      do
        prologue 25 3 rank size
        mpi 49 (Call.win_fence 0 win)
        when (rank == 0) do mpi 52 (Call.get_accumulate none 0 value 1 int 1 0 1 int no_op win)
        when (rank == 2) do
          store_int 56 value 2
          mpi 57 (Call.get_accumulate none 0 value 1 int 1 0 1 int no_op win)
        mpi 60 (Call.win_fence 0 win)
        epilogue 62

-- MPIRMA/conflict/032-MPI-conflict-gaccread-load-remote-no.c
unfoldable pub gaccread_load_remote_no : TestCase Call
unfolding prologue epilogue
gaccread_load_remote_no =
    test "MPIRMA/conflict/032-MPI-conflict-gaccread-load-remote-no.c" (quiet 2) 2 λ rank size. do
      prologue 25 2 rank size
      mpi 49 (Call.win_fence 0 win)
      when (rank == 0) do mpi 52 (Call.get_accumulate none 0 value 1 int 1 0 1 int no_op win)
      when (rank == 1) do load_int 56 (elem win_base 0)
      mpi 59 (Call.win_fence 0 win)
      epilogue 61

-- MPIRMA/conflict/033-MPI-conflict-gaccread-store-remote-yes.c
unfoldable pub gaccread_store_remote_yes : TestCase Call
unfolding prologue epilogue
gaccread_store_remote_yes =
    test "MPIRMA/conflict/033-MPI-conflict-gaccread-store-remote-yes.c"
      (racy remote_race rma_atomic_read local_store "MPI_Get_accumulate" 56 "STORE" 61 2) 2
      λ rank size. do
        prologue 27 2 rank size
        mpi 51 (Call.win_fence 0 win)
        when (rank == 0) do mpi 56 (Call.get_accumulate none 0 value 1 int 1 0 1 int no_op win)
        when (rank == 1) do store_int 61 (elem win_base 0) 42
        mpi 64 (Call.win_fence 0 win)
        epilogue 66

-- MPIRMA/conflict/034-MPI-conflict-gacc-store-remote-yes.c
unfoldable pub gacc_store_remote_yes : TestCase Call
unfolding prologue epilogue
gacc_store_remote_yes =
    test "MPIRMA/conflict/034-MPI-conflict-gacc-store-remote-yes.c"
      (racy remote_race rma_atomic_write local_store "MPI_Get_accumulate" 56 "STORE" 61 2) 2
      λ rank size. do
        prologue 27 2 rank size
        mpi 51 (Call.win_fence 0 win)
        when (rank == 0)
            do mpi 56 (Call.get_accumulate (some value) 1 value2 1 int 1 0 1 int sum win)
        when (rank == 1) do store_int 61 (elem win_base 0) 42
        mpi 64 (Call.win_fence 0 win)
        epilogue 66

-- MPIRMA/conflict/035-MPI-conflict-gacc-gacc-remote-no.c
unfoldable pub gacc_gacc_remote_no : TestCase Call
unfolding prologue epilogue
gacc_gacc_remote_no =
    test "MPIRMA/conflict/035-MPI-conflict-gacc-gacc-remote-no.c" (quiet 3) 3 λ rank size. do
      prologue 25 3 rank size
      mpi 49 (Call.win_fence 0 win)
      when (rank == 0) do mpi 52 (Call.get_accumulate (some value) 1 value2 1 int 1 0 1 int sum win)
      when (rank == 2) do
        store_int 56 value 2
        mpi 57 (Call.get_accumulate (some value) 1 value2 1 int 1 0 1 int sum win)
      mpi 60 (Call.win_fence 0 win)
      epilogue 62

-- MPIRMA/conflict/036-MPI-conflict-fop-fop-remote-no.c
unfoldable pub fop_fop_remote_no : TestCase Call
unfolding prologue epilogue
fop_fop_remote_no =
    test "MPIRMA/conflict/036-MPI-conflict-fop-fop-remote-no.c" (quiet 3) 3 λ rank size. do
      prologue 25 3 rank size
      mpi 49 (Call.win_fence 0 win)
      when (rank == 0) do mpi 52 (Call.fetch_and_op value value2 int 1 0 sum win)
      when (rank == 2)
          do store_int 56 value 2; mpi 57 (Call.fetch_and_op value value2 int 1 0 sum win)
      mpi 60 (Call.win_fence 0 win)
      epilogue 62

-- MPIRMA/conflict/037-MPI-conflict-fop-store-remote-yes.c
unfoldable pub fop_store_remote_yes : TestCase Call
unfolding prologue epilogue
fop_store_remote_yes =
    test "MPIRMA/conflict/037-MPI-conflict-fop-store-remote-yes.c"
      (racy remote_race rma_atomic_write local_store "MPI_Fetch_and_op" 56 "STORE" 61 2) 2
      λ rank size. do
        prologue 27 2 rank size
        mpi 51 (Call.win_fence 0 win)
        when (rank == 0) do mpi 56 (Call.fetch_and_op value value2 int 1 0 sum win)
        when (rank == 1) do store_int 61 (elem win_base 0) 42
        mpi 64 (Call.win_fence 0 win)
        epilogue 66

-- MPIRMA/conflict/038-MPI-conflict-cas-store-remote-yes.c
unfoldable pub cas_store_remote_yes : TestCase Call
unfolding prologue epilogue
cas_store_remote_yes =
    test "MPIRMA/conflict/038-MPI-conflict-cas-store-remote-yes.c"
      (racy remote_race rma_atomic_write local_store "MPI_Compare_and_swap" 56 "STORE" 61 2) 2
      λ rank size. do
        prologue 27 2 rank size
        mpi 51 (Call.win_fence 0 win)
        when (rank == 0)
            do mpi 56 (Call.compare_and_swap value (elem win_base 0) value2 int 1 0 win)
        when (rank == 1) do store_int 61 (elem win_base 0) 42
        mpi 64 (Call.win_fence 0 win)
        epilogue 66

-- MPIRMA/conflict/039-MPI-conflict-cas-cas-remote-no.c
unfoldable pub cas_cas_remote_no : TestCase Call
unfolding prologue epilogue
cas_cas_remote_no =
    test "MPIRMA/conflict/039-MPI-conflict-cas-cas-remote-no.c" (quiet 3) 3 λ rank size. do
      prologue 25 3 rank size
      mpi 49 (Call.win_fence 0 win)
      when (rank == 0) do mpi 52 (Call.compare_and_swap value (elem win_base 0) value2 int 1 0 win)
      when (rank == 2) do
        store_int 56 value 2
        mpi 57 (Call.compare_and_swap value (elem win_base 0) value2 int 1 0 win)
      mpi 60 (Call.win_fence 0 win)
      epilogue 62

abbrev pub atomic_remote_tests : List (TestCase Call)
atomic_remote_tests =
    acc_load_remote_yes ∷ acc_store_remote_yes ∷ acc_acc_remote_no ∷ acc_gaccread_remote_no
    ∷ gaccread_gaccread_remote_no ∷ gaccread_load_remote_no ∷ gaccread_store_remote_yes
    ∷ gacc_store_remote_yes ∷ gacc_gacc_remote_no ∷ fop_fop_remote_no ∷ fop_store_remote_yes
    ∷ cas_store_remote_yes ∷ cas_cas_remote_no ∷ []
