-- ===== src/Mpi/Conflict/LocalAtomic.antt =====
-- An accumulate operation and a second use of its local buffer, under fences: tests of MPIRMA/conflict.
use rmarace_bench.Base.{List, [], ◌∷◌, some, ◌==◌}
use rmarace_bench.Race.Access.{int}
use rmarace_bench.Race.Label.{local_race, buffer_read, buffer_write, local_load, local_store}
use rmarace_bench.Program.{◌>>◌, when, load_int, store_int, elem}
use rmarace_bench.TestCase.{TestCase, test, racy, quiet}
use rmarace_bench.Mpi.Call.{sum, Call, mpi}
use rmarace_bench.Mpi.Boilerplate.{value, value2, win, win_base, prologue, epilogue}

-- MPIRMA/conflict/008-MPI-conflict-acc-store-local-yes.c
unfoldable pub acc_store_local_yes : TestCase Call
unfolding prologue epilogue
acc_store_local_yes =
    test "MPIRMA/conflict/008-MPI-conflict-acc-store-local-yes.c"
      (racy local_race buffer_read local_store "MPI_Accumulate" 54 "STORE" 56 2) 2
      λ rank size. do
        prologue 27 2 rank size
        mpi 51 (Call.win_fence 0 win)
        when (rank == 0)
            do mpi 54 (Call.accumulate value 1 int 1 0 1 int sum win); store_int 56 value 42
        mpi 58 (Call.win_fence 0 win)
        epilogue 60

-- MPIRMA/conflict/009-MPI-conflict-acc-load-local-no.c
unfoldable pub acc_load_local_no : TestCase Call
unfolding prologue epilogue
acc_load_local_no =
    test "MPIRMA/conflict/009-MPI-conflict-acc-load-local-no.c" (quiet 2) 2 λ rank size. do
      prologue 25 2 rank size
      mpi 49 (Call.win_fence 0 win)
      when (rank == 0) do mpi 51 (Call.accumulate value 1 int 1 0 1 int sum win); load_int 52 value
      mpi 54 (Call.win_fence 0 win)
      epilogue 56

-- MPIRMA/conflict/010-MPI-conflict-gacc-store-local-yes.c
unfoldable pub gacc_store_local_yes : TestCase Call
unfolding prologue epilogue
gacc_store_local_yes =
    test "MPIRMA/conflict/010-MPI-conflict-gacc-store-local-yes.c"
      (racy local_race buffer_read local_store "MPI_Get_accumulate" 54 "STORE" 56 2) 2
      λ rank size. do
        prologue 27 2 rank size
        mpi 51 (Call.win_fence 0 win)
        when (rank == 0) do
          mpi 54 (Call.get_accumulate (some value) 1 value2 1 int 1 0 1 int sum win)
          store_int 56 value 42
        mpi 58 (Call.win_fence 0 win)
        epilogue 60

-- MPIRMA/conflict/011-MPI-conflict-gacc-load-local-yes.c
unfoldable pub gacc_load_local_yes : TestCase Call
unfolding prologue epilogue
gacc_load_local_yes =
    test "MPIRMA/conflict/011-MPI-conflict-gacc-load-local-yes.c"
      (racy local_race buffer_write local_load "MPI_Get_accumulate" 54 "LOAD" 56 2) 2
      λ rank size. do
        prologue 27 2 rank size
        mpi 51 (Call.win_fence 0 win)
        when (rank == 0) do
          mpi 54 (Call.get_accumulate (some value2) 1 value 1 int 1 0 1 int sum win)
          load_int 56 value
        mpi 58 (Call.win_fence 0 win)
        epilogue 60

-- MPIRMA/conflict/012-MPI-conflict-fop-store-local-yes.c
unfoldable pub fop_store_local_yes : TestCase Call
unfolding prologue epilogue
fop_store_local_yes =
    test "MPIRMA/conflict/012-MPI-conflict-fop-store-local-yes.c"
      (racy local_race buffer_read local_store "MPI_Fetch_and_op" 54 "STORE" 56 2) 2
      λ rank size. do
        prologue 27 2 rank size
        mpi 51 (Call.win_fence 0 win)
        when (rank == 0)
            do mpi 54 (Call.fetch_and_op value value2 int 1 0 sum win); store_int 56 value 42
        mpi 58 (Call.win_fence 0 win)
        epilogue 60

-- MPIRMA/conflict/013-MPI-conflict-fop-load-local-yes.c
unfoldable pub fop_load_local_yes : TestCase Call
unfolding prologue epilogue
fop_load_local_yes =
    test "MPIRMA/conflict/013-MPI-conflict-fop-load-local-yes.c"
      (racy local_race buffer_write local_load "MPI_Fetch_and_op" 54 "LOAD" 56 2) 2
      λ rank size. do
        prologue 27 2 rank size
        mpi 51 (Call.win_fence 0 win)
        when (rank == 0)
            do mpi 54 (Call.fetch_and_op value2 value int 1 0 sum win); load_int 56 value
        mpi 58 (Call.win_fence 0 win)
        epilogue 60

-- MPIRMA/conflict/014-MPI-conflict-cas-store-local-yes.c
unfoldable pub cas_store_local_yes : TestCase Call
unfolding prologue epilogue
cas_store_local_yes =
    test "MPIRMA/conflict/014-MPI-conflict-cas-store-local-yes.c"
      (racy local_race buffer_read local_store "MPI_Compare_and_swap" 54 "STORE" 56 2) 2
      λ rank size. do
        prologue 27 2 rank size
        mpi 51 (Call.win_fence 0 win)
        when (rank == 0) do
          mpi 54 (Call.compare_and_swap value (elem win_base 0) value2 int 1 0 win)
          store_int 56 value 42
        mpi 58 (Call.win_fence 0 win)
        epilogue 60

-- MPIRMA/conflict/015-MPI-conflict-cas-load-local-yes.c
unfoldable pub cas_load_local_yes : TestCase Call
unfolding prologue epilogue
cas_load_local_yes =
    test "MPIRMA/conflict/015-MPI-conflict-cas-load-local-yes.c"
      (racy local_race buffer_write local_load "MPI_Compare_and_swap" 54 "LOAD" 56 2) 2
      λ rank size. do
        prologue 27 2 rank size
        mpi 51 (Call.win_fence 0 win)
        when (rank == 0) do
          mpi 54 (Call.compare_and_swap value2 (elem win_base 0) value int 1 0 win)
          load_int 56 value
        mpi 58 (Call.win_fence 0 win)
        epilogue 60

abbrev pub local_atomic_tests : List (TestCase Call)
local_atomic_tests =
    acc_store_local_yes ∷ acc_load_local_no ∷ gacc_store_local_yes ∷ gacc_load_local_yes
    ∷ fop_store_local_yes ∷ fop_load_local_yes ∷ cas_store_local_yes ∷ cas_load_local_yes ∷ []
