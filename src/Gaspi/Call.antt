-- ===== src/Gaspi/Call.antt =====
-- The calls of the tests under GASPI.
use rmarace_bench.Base.{ℕ, String, List}
use rmarace_bench.Program.{Ptr, Run, perform}

-- A part of a segment: its offset, and the segment.
pub record Place : Type 0 where
  pub segment : String
  pub offset : ℕ

abbrev pub place : String → ℕ → Place
place s n = record { segment = s; offset = n }

-- The calls, with their arguments in the order of the C functions; a segment and an offset in it
-- are one argument, and the arrays of the list operations are lists. The group is always
-- GASPI_GROUP_ALL, the timeout GASPI_BLOCK, and the reduction GASPI_OP_SUM of integers.
pub data Call : Type 0 where
  mpi_init mpi_init_thread mpi_abort proc_init proc_rank proc_num proc_term mpi_finalize : Call
  segment_alloc : (segment : String) (size : ℕ) → Call
  segment_create : (segment : String) (size : ℕ) → Call
  segment_ptr : (segment : String) → Call
  barrier : Call
  -- `type` is a number of gaspi_datatype_t, and the operation is GASPI_OP_SUM.
  allreduce : (send recv : Ptr) (num type : ℕ) → Call
  write read : (here : Place) (rank : ℕ) (there : Place) (size queue : ℕ) → Call
  write_notify : (here : Place) (rank : ℕ) (there : Place) (size id value queue : ℕ) → Call
  read_notify : (here : Place) (rank : ℕ) (there : Place) (size id queue : ℕ) → Call
  write_list read_list :
      (here : List Place) (rank : ℕ) (there : List Place) (sizes : List ℕ) (queue : ℕ) → Call
  write_list_notify :
      (here : List Place) (rank : ℕ) (there : List Place) (sizes : List ℕ) (segment : String)
      (id value queue : ℕ)
      → Call
  read_list_notify :
      (here : List Place) (rank : ℕ) (there : List Place) (sizes : List ℕ) (segment : String)
      (id queue : ℕ)
      → Call
  notify : (segment : String) (rank id value queue : ℕ) → Call
  notify_waitsome : (segment : String) (first num : ℕ) → Call
  wait : (queue : ℕ) → Call
  atomic_fetch_add : (there : Place) (rank value : ℕ) (old : Ptr) → Call
  passive_send : (here : Place) (rank size : ℕ) → Call
  passive_receive : (here : Place) (size : ℕ) → Call
  sleep : (seconds : ℕ) → Call  -- of the C library

abbrev pub gaspi : ℕ → Call → Run Call (Unit {0})
gaspi = perform
