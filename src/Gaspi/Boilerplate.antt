-- ===== src/Gaspi/Boilerplate.antt =====
-- The code that all tests under GASPI share, before and after the part under test. It comes from
-- templates/GASPI/GASPI-boilerplate.c.j2; lines are counted from the line `at` of `int main`, and
-- for the end of `main` from the line `at` of its last gaspi_wait.
use rmarace_bench.Base.{ℕ, ◌+◌, ◌*◌, String, Bool, not, ◌==◌}
use rmarace_bench.Race.Access.{int, size_of}
use rmarace_bench.Program.{Ptr, addr, elem, Run, ◌>>◌, leave, when, for_range, load_int}
use rmarace_bench.Gaspi.Call.{Call, gaspi}

-- The segments 0 and 1.
abbrev pub loc_seg_id : String
loc_seg_id = "segment 0"

abbrev pub remote_seg_id : String
remote_seg_id = "segment 1"

abbrev pub queue_id : ℕ
queue_id = 0

abbrev pub seg_size : ℕ
seg_size = 10 * size_of int

-- gaspi_segment_ptr makes them the starts of the segments.
abbrev pub localbuf : Ptr
localbuf = addr loc_seg_id

abbrev pub remote_data : Ptr
remote_data = addr remote_seg_id

-- `num != PROC_NUM`: the test is started with the wrong number of processes. It then
-- calls gaspi_proc_term, which does not end the process, and the source has no `return` behind it.
unfoldable pub prologue : (at proc_num num : ℕ) → Run Call (Unit {0})
prologue at proc_num num = do
  gaspi (at + 2) Call.mpi_init
  gaspi (at + 3) Call.proc_init
  gaspi (at + 8) Call.proc_rank
  gaspi (at + 9) Call.proc_num
  when (not (num == proc_num)) (gaspi (at + 13) Call.proc_term)
  gaspi (at + 22) (Call.segment_alloc loc_seg_id seg_size)
  gaspi (at + 24) (Call.segment_create remote_seg_id seg_size)
  gaspi (at + 28) (Call.segment_ptr loc_seg_id)
  gaspi (at + 29) (Call.segment_ptr remote_seg_id)

-- The start of the tests whose processes have threads. `multiple` says whether MPI supports
-- MPI_THREAD_MULTIPLE.
unfoldable pub threaded_prologue : (multiple : Bool) (at proc_num num : ℕ) → Run Call (Unit {0})
threaded_prologue multiple at proc_num num = do
  gaspi (at + 3) Call.mpi_init_thread
  when (not multiple) (leave (at + 6) Call.mpi_abort)
  gaspi (at + 8) Call.proc_init
  gaspi (at + 13) Call.proc_rank
  gaspi (at + 14) Call.proc_num
  when (not (num == proc_num)) (gaspi (at + 18) Call.proc_term)
  gaspi (at + 27) (Call.segment_alloc loc_seg_id seg_size)
  gaspi (at + 29) (Call.segment_create remote_seg_id seg_size)
  gaspi (at + 33) (Call.segment_ptr loc_seg_id)
  gaspi (at + 34) (Call.segment_ptr remote_seg_id)

-- From the last gaspi_wait on: each process notifies all, and waits for the notifications of all.
unfoldable pub epilogue : (at rank num : ℕ) → Run Call (Unit {0})
epilogue at rank num = do
  gaspi at (Call.wait queue_id)
  gaspi (at + 1) Call.barrier
  for_range num 0 λ i. gaspi (at + 8) (Call.notify remote_seg_id i rank 1 queue_id)
  for_range num 0 λ i. gaspi (at + 12) (Call.notify_waitsome remote_seg_id i 1)
  load_int (at + 18) (elem localbuf 0)
  load_int (at + 19) (elem remote_data 0)
  gaspi (at + 20) Call.proc_term
  gaspi (at + 22) Call.mpi_finalize
