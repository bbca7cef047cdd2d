-- ===== src/Shmem/Call.antt =====
-- The calls of the tests under SHMEM.
use rmarace_bench.Base.{ℕ, String}
use rmarace_bench.Race.Access.{Datatype}
use rmarace_bench.Program.{Ptr, Run, perform}

-- The calls, with their arguments in the order of the C functions. Where there is no type, a
-- data call is that for `int`. A lock and a context go by the names of the variables that hold
-- them; the team of shmem_sync is SHMEM_TEAM_WORLD, and the operation on a signal is
-- SHMEM_SIGNAL_SET.
pub data Call : Type 0 where
  init n_pes my_pe global_exit finalize barrier_all sync sync_all quiet fence : Call
  set_lock clear_lock : (lock : String) → Call
  put put_nbi : (dest source : Ptr) (nelems pe : ℕ) → Call
  get get_nbi : (dest source : Ptr) (nelems pe : ℕ) → Call
  -- the type-generic shmem_put_nbi and shmem_get_nbi, for `int`
  put_nbi_generic get_nbi_generic : (dest source : Ptr) (nelems pe : ℕ) → Call
  iput iget : (dest source : Ptr) (dst sst nelems pe : ℕ) → Call
  p : (dest : Ptr) (value pe : ℕ) → Call
  g : (source : Ptr) (pe : ℕ) → Call
  put_signal put_signal_nbi : (dest source : Ptr) (nelems : ℕ) (signal : Ptr) (value pe : ℕ) → Call
  atomic_fetch : (source : Ptr) (pe : ℕ) → Call
  atomic_fetch_nbi : (fetch source : Ptr) (pe : ℕ) → Call
  atomic_fetch_inc : (dest : Ptr) (pe : ℕ) → Call
  atomic_fetch_inc_nbi : (fetch dest : Ptr) (pe : ℕ) → Call
  atomic_compare_swap_nbi : (fetch dest : Ptr) (cond value pe : ℕ) → Call
  atomic_set atomic_add : (dest : Ptr) (value pe : ℕ) → Call
  -- those of another type than `int`, whose values are not kept
  atomic_set_as atomic_add_as : (type : Datatype) (dest : Ptr) (pe : ℕ) → Call
  ctx_atomic_add : (ctx : String) (dest : Ptr) (value pe : ℕ) → Call
  ctx_create ctx_quiet : (ctx : String) → Call
  ctx_put : (ctx : String) (dest source : Ptr) (nelems pe : ℕ) → Call
  -- for uint64_t and for int, with SHMEM_CMP_EQ
  uint64_wait_until int_wait_until : (ivar : Ptr) (value : ℕ) → Call
  sleep : (seconds : ℕ) → Call  -- of the C library

abbrev pub shmem : ℕ → Call → Run Call (Unit {0})
shmem = perform
