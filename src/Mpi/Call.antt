-- ===== src/Mpi/Call.antt =====
-- The calls of the tests under MPIRMA.
use rmarace_bench.Base.{ℕ, String, Option, List}
use rmarace_bench.Race.Access.{Datatype}
use rmarace_bench.Program.{Ptr, Run, perform}

pub data Lock : Type 0 where
  lock_shared lock_exclusive : Lock

pub data Reduction : Type 0 where
  sum replace no_op : Reduction

-- The calls, with their arguments in the order of the C functions: the communicator is always
-- MPI_COMM_WORLD and the info MPI_INFO_NULL. A group is the list of its ranks, a window and a
-- request go by the names of the variables that hold them.
pub data Call : Type 0 where
  init init_thread comm_rank comm_size abort finalize barrier comm_group : Call
  win_allocate : (bytes disp_unit : ℕ) (win : String) → Call
  win_free : (win : String) → Call
  win_fence : (assert : ℕ) (win : String) → Call
  win_lock : (kind : Lock) (target assert : ℕ) (win : String) → Call
  win_unlock : (target : ℕ) (win : String) → Call
  win_lock_all : (assert : ℕ) (win : String) → Call
  win_unlock_all : (win : String) → Call
  win_flush win_flush_local : (target : ℕ) (win : String) → Call
  win_flush_all win_flush_local_all : (win : String) → Call
  win_start win_post : (group : List ℕ) (assert : ℕ) (win : String) → Call
  win_complete win_wait : (win : String) → Call
  group_incl group_free : (group : List ℕ) → Call
  type_contiguous type_size : (type : Datatype) → Call
  type_commit type_free : (type : Datatype) → Call
  put get :
      (origin : Ptr) (count : ℕ) (type : Datatype) (target disp target_count : ℕ)
      (target_type : Datatype) (win : String)
      → Call
  rget :
      (origin : Ptr) (count : ℕ) (type : Datatype) (target disp target_count : ℕ)
      (target_type : Datatype) (win request : String)
      → Call
  accumulate :
      (origin : Ptr) (count : ℕ) (type : Datatype) (target disp target_count : ℕ)
      (target_type : Datatype) (op : Reduction) (win : String)
      → Call
  get_accumulate :  -- no origin buffer where the call passes NULL, 0, MPI_DATATYPE_NULL
      (origin : Option Ptr) (count : ℕ) (result : Ptr) (result_count : ℕ) (result_type : Datatype)
      (target disp target_count : ℕ) (target_type : Datatype) (op : Reduction) (win : String)
      → Call
  fetch_and_op :
      (origin result : Ptr) (type : Datatype) (target disp : ℕ) (op : Reduction) (win : String)
      → Call
  compare_and_swap :
      (origin compare result : Ptr) (type : Datatype) (target disp : ℕ) (win : String) → Call
  wait : (request : String) → Call
  send recv : (buf : Ptr) (count : ℕ) (type : Datatype) (peer tag : ℕ) → Call
  sleep : (seconds : ℕ) → Call  -- of the C library

abbrev pub mpi : ℕ → Call → Run Call (Unit {0})
mpi = perform
