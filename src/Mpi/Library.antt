-- ===== src/Mpi/Library.antt =====
-- MPI as the tests use it.
use rmarace_bench.Base.{
  ◌||◌, ℕ, ◌*◌, String, Bool, true, false, Option, none, some, str_eq, if◌then◌else◌,
}
use rmarace_bench.Race.Access.{size_of, int}
use rmarace_bench.Usage.{Library}
use rmarace_bench.Threads.Teams.{threaded}
use rmarace_bench.Mpi.Call.{Call}
use rmarace_bench.Mpi.Guarantees.{behaviour, sends_to, receives_from}
use rmarace_bench.Mpi.Boilerplate.{win_size, win}

-- The calls that all processes of MPI_COMM_WORLD have to make in the same order.
collective : Call → Option String
collective Call.init = some "MPI_Init"
collective Call.init_thread = some "MPI_Init_thread"
collective Call.barrier = some "MPI_Barrier"
collective (Call.win_allocate _ _ _) = some "MPI_Win_allocate"
collective (Call.win_fence _ _) = some "MPI_Win_fence"
collective (Call.win_free _) = some "MPI_Win_free"
collective Call.finalize = some "MPI_Finalize"
collective _ = none

-- A window has WIN_SIZE integers, and each variable is an integer.
abbrev pub room : String → String → ℕ
room file x = if str_eq x win || str_eq x "win2" then win_size * size_of int else size_of int

frees : Call → Bool
frees (Call.win_free w) = str_eq w win
frees _ = false

unfoldable pub mpi_library : Library Call
unfolding behaviour collective sends_to receives_from frees
mpi_library = record {
  rules = behaviour;
  collective = collective;
  sends_to = sends_to;
  receives_from = receives_from;
  gives_back = frees;
  concerns = λ r owner. true;
  room = room;
}

-- for processes with threads
unfoldable pub threaded_library : Library Call
unfolding mpi_library threaded behaviour
threaded_library = record mpi_library { rules = threaded behaviour }
