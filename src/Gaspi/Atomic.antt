-- ===== src/Gaspi/Atomic.antt =====
-- Two fetch-adds: tests of GASPI/atomic.
use rmarace_bench.Base.{List, [], ◌∷◌, ◌==◌}
use rmarace_bench.Race.Access.{long, size_of}
use rmarace_bench.Race.Label.{remote_race, rma_atomic_write}
use rmarace_bench.Program.{◌>>◌, when, load_value, addr}
use rmarace_bench.TestCase.{TestCase, test, racy, quiet}
use rmarace_bench.Gaspi.Call.{place, Call, gaspi}
use rmarace_bench.Gaspi.Boilerplate.{remote_seg_id, prologue, epilogue}

-- GASPI/atomic/001-GASPI-atomic-fetchadd-fetchadd-remote-no.c
unfoldable pub fetchadd_fetchadd_remote_no : TestCase Call
unfolding prologue epilogue
fetchadd_fetchadd_remote_no =
    test "GASPI/atomic/001-GASPI-atomic-fetchadd-fetchadd-remote-no.c" (quiet 3) 3 λ rank num. do
      prologue 26 3 num
      gaspi 59 Call.barrier
      when (rank == 0) do
        gaspi 64 (Call.atomic_fetch_add (place remote_seg_id 0) 1 1 (addr "old"))
        load_value 65 long (addr "old")
      when (rank == 2) do
        gaspi 70 (Call.atomic_fetch_add (place remote_seg_id 0) 1 1 (addr "old"))
        load_value 71 long (addr "old")
      gaspi 74 Call.barrier
      epilogue 76 rank num

-- GASPI/atomic/002-GASPI-atomic-fetchadd-fetchadd-remote-offset-yes.c
unfoldable pub fetchadd_fetchadd_remote_offset_yes : TestCase Call
unfolding prologue epilogue
fetchadd_fetchadd_remote_offset_yes =
    test "GASPI/atomic/002-GASPI-atomic-fetchadd-fetchadd-remote-offset-yes.c"
      (racy remote_race rma_atomic_write rma_atomic_write "gaspi_atomic_fetch_add" 65
        "gaspi_atomic_fetch_add" 71 3)
      3
      λ rank num. do
        prologue 27 3 num
        gaspi 60 Call.barrier
        when (rank == 0) do
          gaspi 65 (Call.atomic_fetch_add (place remote_seg_id 1) 1 1 (addr "old"))
          load_value 66 long (addr "old")
        when (rank == 2) do
          gaspi 71 (Call.atomic_fetch_add (place remote_seg_id 0) 1 1 (addr "old"))
          load_value 72 long (addr "old")
        gaspi 75 Call.barrier
        epilogue 77 rank num

-- GASPI/atomic/003-GASPI-atomic-fetchadd-fetchadd-remote-offset-no.c
unfoldable pub fetchadd_fetchadd_remote_offset_no : TestCase Call
unfolding prologue epilogue
fetchadd_fetchadd_remote_offset_no =
    test "GASPI/atomic/003-GASPI-atomic-fetchadd-fetchadd-remote-offset-no.c" (quiet 3) 3
      λ rank num. do
        prologue 26 3 num
        gaspi 59 Call.barrier
        when (rank == 0) do
          gaspi 64 (Call.atomic_fetch_add (place remote_seg_id (size_of long)) 1 1 (addr "old"))
          load_value 65 long (addr "old")
        when (rank == 2) do
          gaspi 70 (Call.atomic_fetch_add (place remote_seg_id 0) 1 1 (addr "old"))
          load_value 71 long (addr "old")
        gaspi 74 Call.barrier
        epilogue 76 rank num

abbrev pub atomic_tests : List (TestCase Call)
atomic_tests =
    fetchadd_fetchadd_remote_no ∷ fetchadd_fetchadd_remote_offset_yes
    ∷ fetchadd_fetchadd_remote_offset_no ∷ []
