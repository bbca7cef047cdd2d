-- ===== src/Mpi/Boilerplate.antt =====
-- The code that all tests under MPIRMA share, before and after the part under test. It comes from
-- templates/MPIRMA/MPI-boilerplate.c.j2; lines are counted from the line `at` of `int main`, and
-- for the end of `main` from the line `at` of its last MPI_Barrier.
use rmarace_bench.Base.{ℕ, ◌+◌, ◌*◌, String, Bool, not, ◌==◌}
use rmarace_bench.Race.Access.{int, size_of}
use rmarace_bench.Program.{Ptr, addr, elem, Run, ◌>>◌, leave, when, for_range, load_int, store_int}
use rmarace_bench.Mpi.Call.{Call, mpi}

-- #define WIN_SIZE 10
abbrev pub win_size : ℕ
win_size = 10

-- The variables of `main` that the tests use.
abbrev pub value : Ptr
value = addr "value"

abbrev pub value2 : Ptr
value2 = addr "value2"

abbrev pub token : Ptr
token = addr "token"

-- int* buf = &value;
abbrev pub buf : Ptr
buf = value

abbrev pub win : String
win = "win"

-- MPI_Win_allocate makes it the start of the memory of `win`.
abbrev pub win_base : Ptr
win_base = addr win

-- `unit` is the displacement unit of the window: sizeof(int), except in two tests.
-- `size != PROC_NUM`: the test is started with the wrong number of processes, and MPI_Abort ends it.
unfoldable pub prologue_in_units : (unit at proc_num rank size : ℕ) → Run Call (Unit {0})
prologue_in_units unit at proc_num rank size = do
  store_int (at + 5) value 1
  store_int (at + 5) value2 2
  store_int (at + 8) token 42
  mpi (at + 10) Call.init
  mpi (at + 11) Call.comm_rank
  mpi (at + 12) Call.comm_size
  when (not (size == proc_num)) (leave (at + 16) Call.abort)
  mpi (at + 19) (Call.win_allocate (win_size * size_of int) unit win)
  for_range win_size 0 λ i. store_int (at + 21) (elem win_base i) 0

unfoldable pub prologue : (at proc_num rank size : ℕ) → Run Call (Unit {0})
unfolding prologue_in_units
prologue = prologue_in_units (size_of int)

-- The start of the tests whose processes have threads. `multiple` says whether the library supports
-- MPI_THREAD_MULTIPLE.
unfoldable pub threaded_prologue :
    (multiple : Bool) (at proc_num rank size : ℕ) → Run Call (Unit {0})
threaded_prologue multiple at proc_num rank size = do
  store_int (at + 5) value 1
  store_int (at + 5) value2 2
  store_int (at + 8) token 42
  mpi (at + 11) Call.init_thread
  when (not multiple) (leave (at + 14) Call.abort)
  mpi (at + 16) Call.comm_rank
  mpi (at + 17) Call.comm_size
  when (not (size == proc_num)) (leave (at + 21) Call.abort)
  mpi (at + 24) (Call.win_allocate (win_size * size_of int) (size_of int) win)
  for_range win_size 0 λ i. store_int (at + 26) (elem win_base i) 0

-- From the last MPI_Barrier on.
unfoldable pub epilogue : (at : ℕ) → Run Call (Unit {0})
epilogue at = do
  mpi at Call.barrier
  load_int (at + 4) buf
  load_int (at + 5) value2
  load_int (at + 6) (elem win_base 0)
  mpi (at + 8) (Call.win_free win)
  mpi (at + 9) Call.finalize
