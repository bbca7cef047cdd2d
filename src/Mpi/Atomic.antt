-- ===== src/Mpi/Atomic.antt =====
-- Two accumulate operations on one target: tests of MPIRMA/atomic.
use rmarace_bench.Base.{List, [], ◌∷◌, ◌==◌}
use rmarace_bench.Race.Access.{int, short, float, double, contiguous, size_of}
use rmarace_bench.Race.Label.{remote_race, rma_atomic_write}
use rmarace_bench.Program.{◌>>◌, when, store_array, addr}
use rmarace_bench.TestCase.{TestCase, test, racy, quiet}
use rmarace_bench.Mpi.Call.{sum, Call, mpi}
use rmarace_bench.Mpi.Boilerplate.{win, prologue, prologue_in_units, epilogue}

-- MPIRMA/atomic/001-MPI-atomic-customdatatype-remote-no.c
unfoldable pub customdatatype_remote_no : TestCase Call
unfolding prologue epilogue
customdatatype_remote_no =
    test "MPIRMA/atomic/001-MPI-atomic-customdatatype-remote-no.c" (quiet 3) 3 λ rank size. do
      prologue 25 3 rank size
      mpi 49 Call.barrier
      let dtype = contiguous 4 int
      mpi 52 (Call.type_contiguous dtype)
      mpi 53 (Call.type_commit dtype)
      mpi 55 (Call.win_fence 0 win)
      when (rank == 0) do
        let value1 = addr "value1 of line 57"
        store_array 57 int value1 4
        mpi 58 (Call.accumulate value1 4 int 1 0 4 int sum win)
      when (rank == 2) do
        let value2 = addr "value2 of line 61"
        store_array 61 int value2 4
        mpi 62 (Call.accumulate value2 1 dtype 1 0 1 dtype sum win)
      mpi 64 (Call.win_fence 0 win)
      mpi 66 (Call.type_free dtype)
      epilogue 68

-- MPIRMA/atomic/002-MPI-atomic-customdatatype-remote-yes.c
unfoldable pub customdatatype_remote_yes : TestCase Call
unfolding prologue epilogue
customdatatype_remote_yes =
    test "MPIRMA/atomic/002-MPI-atomic-customdatatype-remote-yes.c"
      (racy remote_race rma_atomic_write rma_atomic_write "MPI_Accumulate" 60 "MPI_Accumulate" 66 3)
      3
      λ rank size. do
        prologue 26 3 rank size
        mpi 50 Call.barrier
        let dtype = contiguous 4 int
        mpi 53 (Call.type_contiguous dtype)
        mpi 54 (Call.type_commit dtype)
        mpi 56 (Call.win_fence 0 win)
        when (rank == 0) do
          let value1 = addr "value1 of line 58"
          store_array 58 short value1 4
          mpi 60 (Call.accumulate value1 4 short 1 0 4 short sum win)
        when (rank == 2) do
          let value2 = addr "value2 of line 64"
          store_array 64 int value2 4
          mpi 66 (Call.accumulate value2 1 dtype 1 0 1 dtype sum win)
        mpi 68 (Call.win_fence 0 win)
        mpi 70 (Call.type_free dtype)
        epilogue 72

-- MPIRMA/atomic/003-MPI-atomic-disp-remote-yes.c
unfoldable pub disp_remote_yes : TestCase Call
unfolding prologue_in_units epilogue
disp_remote_yes =
    test "MPIRMA/atomic/003-MPI-atomic-disp-remote-yes.c"
      (racy remote_race rma_atomic_write rma_atomic_write "MPI_Accumulate" 56 "MPI_Accumulate" 61 3)
      3
      λ rank size. do
        prologue_in_units 1 26 3 rank size
        mpi 50 Call.barrier
        mpi 52 (Call.win_fence 0 win)
        when (rank == 0) do
          let value1 = addr "value1 of line 54"
          store_array 54 int value1 4
          mpi 56 (Call.accumulate value1 4 int 1 0 4 int sum win)
        when (rank == 2) do
          let value2 = addr "value2 of line 59"
          store_array 59 int value2 4
          mpi 61 (Call.accumulate value2 4 int 1 1 4 int sum win)
        mpi 63 (Call.win_fence 0 win)
        epilogue 65

-- MPIRMA/atomic/004-MPI-atomic-disp-remote-no.c
unfoldable pub disp_remote_no : TestCase Call
unfolding prologue_in_units epilogue
disp_remote_no = test "MPIRMA/atomic/004-MPI-atomic-disp-remote-no.c" (quiet 3) 3 λ rank size. do
  prologue_in_units 1 25 3 rank size
  mpi 49 Call.barrier
  mpi 51 (Call.win_fence 0 win)
  when (rank == 0) do
    let value1 = addr "value1 of line 53"
    store_array 53 int value1 4
    mpi 55 (Call.accumulate value1 4 int 1 0 4 int sum win)
  when (rank == 2) do
    let value2 = addr "value2 of line 58"
    store_array 58 int value2 4
    mpi 60 (Call.type_size int)
    let typesize = size_of int
    mpi 61 (Call.accumulate value2 4 int 1 typesize 4 int sum win)
  mpi 63 (Call.win_fence 0 win)
  epilogue 65

-- MPIRMA/atomic/005-MPI-atomic-short-int-remote-yes.c
unfoldable pub short_int_remote_yes : TestCase Call
unfolding prologue epilogue
short_int_remote_yes =
    test "MPIRMA/atomic/005-MPI-atomic-short-int-remote-yes.c"
      (racy remote_race rma_atomic_write rma_atomic_write "MPI_Accumulate" 56 "MPI_Accumulate" 62 3)
      3
      λ rank size. do
        prologue 26 3 rank size
        mpi 50 Call.barrier
        mpi 52 (Call.win_fence 0 win)
        when (rank == 0) do
          let value1 = addr "value1 of line 54"
          store_array 54 short value1 4
          mpi 56 (Call.accumulate value1 4 short 1 0 4 short sum win)
        when (rank == 2) do
          let value2 = addr "value2 of line 60"
          store_array 60 int value2 4
          mpi 62 (Call.accumulate value2 4 int 1 0 4 int sum win)
        mpi 65 (Call.win_fence 0 win)
        epilogue 67

-- MPIRMA/atomic/006-MPI-atomic-float-int-remote-yes.c
unfoldable pub float_int_remote_yes : TestCase Call
unfolding prologue epilogue
float_int_remote_yes =
    test "MPIRMA/atomic/006-MPI-atomic-float-int-remote-yes.c"
      (racy remote_race rma_atomic_write rma_atomic_write "MPI_Accumulate" 56 "MPI_Accumulate" 62 3)
      3
      λ rank size. do
        prologue 26 3 rank size
        mpi 50 Call.barrier
        mpi 52 (Call.win_fence 0 win)
        when (rank == 0) do
          let value1 = addr "value1 of line 54"
          store_array 54 float value1 4
          mpi 56 (Call.accumulate value1 4 float 1 0 4 float sum win)
        when (rank == 2) do
          let value2 = addr "value2 of line 60"
          store_array 60 int value2 4
          mpi 62 (Call.accumulate value2 4 int 1 0 4 int sum win)
        mpi 65 (Call.win_fence 0 win)
        epilogue 67

-- MPIRMA/atomic/007-MPI-atomic-float-int-sameorigin-remote-yes.c
unfoldable pub float_int_sameorigin_remote_yes : TestCase Call
unfolding prologue epilogue
float_int_sameorigin_remote_yes =
    test "MPIRMA/atomic/007-MPI-atomic-float-int-sameorigin-remote-yes.c"
      (racy remote_race rma_atomic_write rma_atomic_write "MPI_Accumulate" 57 "MPI_Accumulate" 59 2)
      2
      λ rank size. do
        prologue 26 2 rank size
        mpi 50 Call.barrier
        mpi 52 (Call.win_fence 0 win)
        when (rank == 0) do
          let value1 = addr "value1 of line 54"
          store_array 54 float value1 4
          let value2 = addr "value2 of line 55"
          store_array 55 int value2 4
          mpi 57 (Call.accumulate value1 4 float 1 0 4 float sum win)
          mpi 59 (Call.accumulate value2 4 int 1 0 4 int sum win)
        mpi 62 (Call.win_fence 0 win)
        epilogue 64

-- MPIRMA/atomic/008-MPI-atomic-double-float-remote-yes.c
unfoldable pub double_float_remote_yes : TestCase Call
unfolding prologue epilogue
double_float_remote_yes =
    test "MPIRMA/atomic/008-MPI-atomic-double-float-remote-yes.c"
      (racy remote_race rma_atomic_write rma_atomic_write "MPI_Accumulate" 56 "MPI_Accumulate" 62 3)
      3
      λ rank size. do
        prologue 26 3 rank size
        mpi 50 Call.barrier
        mpi 52 (Call.win_fence 0 win)
        when (rank == 0) do
          let value1 = addr "value1 of line 54"
          store_array 54 double value1 4
          mpi 56 (Call.accumulate value1 4 double 1 0 4 double sum win)
        when (rank == 2) do
          let value2 = addr "value2 of line 60"
          store_array 60 float value2 4
          mpi 62 (Call.accumulate value2 4 float 1 0 4 float sum win)
        mpi 64 (Call.win_fence 0 win)
        epilogue 66

-- MPIRMA/atomic/009-MPI-atomic-int-int-remote-no.c
unfoldable pub int_int_remote_no : TestCase Call
unfolding prologue epilogue
int_int_remote_no = test "MPIRMA/atomic/009-MPI-atomic-int-int-remote-no.c" (quiet 3) 3 λ rank size.
    do
      prologue 25 3 rank size
      mpi 49 Call.barrier
      mpi 51 (Call.win_fence 0 win)
      when (rank == 0) do
        let value1 = addr "value1 of line 53"
        store_array 53 int value1 4
        mpi 55 (Call.accumulate value1 4 int 1 0 4 int sum win)
      when (rank == 2) do
        let value2 = addr "value2 of line 59"
        store_array 59 int value2 4
        mpi 61 (Call.accumulate value2 4 int 1 0 4 int sum win)
      mpi 63 (Call.win_fence 0 win)
      epilogue 65

-- MPIRMA/atomic/010-MPI-atomic-int-int-sameorigin-remote-no.c
unfoldable pub int_int_sameorigin_remote_no : TestCase Call
unfolding prologue epilogue
int_int_sameorigin_remote_no =
    test "MPIRMA/atomic/010-MPI-atomic-int-int-sameorigin-remote-no.c" (quiet 2) 2 λ rank size. do
      prologue 25 2 rank size
      mpi 49 Call.barrier
      mpi 51 (Call.win_fence 0 win)
      when (rank == 0) do
        let value1 = addr "value1 of line 53"
        store_array 53 int value1 4
        let value2 = addr "value2 of line 54"
        store_array 54 int value2 4
        mpi 55 (Call.accumulate value1 4 int 1 0 4 int sum win)
        mpi 56 (Call.accumulate value2 4 int 1 0 4 int sum win)
      mpi 58 (Call.win_fence 0 win)
      epilogue 60

abbrev pub atomic_tests : List (TestCase Call)
atomic_tests =
    customdatatype_remote_no ∷ customdatatype_remote_yes ∷ disp_remote_yes ∷ disp_remote_no
    ∷ short_int_remote_yes ∷ float_int_remote_yes ∷ float_int_sameorigin_remote_yes
    ∷ double_float_remote_yes ∷ int_int_remote_no ∷ int_int_sameorigin_remote_no ∷ []
