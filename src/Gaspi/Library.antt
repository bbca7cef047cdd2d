-- ===== src/Gaspi/Library.antt =====
-- GASPI as the tests use it.
use rmarace_bench.Base.{
  ℕ, ◌||◌, ◌==◌, String, Bool, true, false, Option, none, some, str_eq, if◌then◌else◌,
}
use rmarace_bench.Race.Access.{size_of, int, long}
use rmarace_bench.Usage.{Library}
use rmarace_bench.Threads.Teams.{threaded}
use rmarace_bench.Gaspi.Call.{Call}
use rmarace_bench.Gaspi.Guarantees.{behaviour}
use rmarace_bench.Gaspi.Boilerplate.{loc_seg_id, remote_seg_id, seg_size}

-- The calls that all processes have to make in the same order.
collective : Call → Option String
collective Call.mpi_init = some "MPI_Init"
collective Call.mpi_init_thread = some "MPI_Init_thread"
collective Call.proc_init = some "gaspi_proc_init"
collective (Call.segment_create _ _) = some "gaspi_segment_create"
collective Call.barrier = some "gaspi_barrier"
collective (Call.allreduce _ _ _ _) = some "gaspi_allreduce"
collective Call.proc_term = some "gaspi_proc_term"
collective Call.mpi_finalize = some "MPI_Finalize"
collective _ = none

-- `old` is a gaspi_atomic_value_t, each other variable an integer.
abbrev pub room : String → String → ℕ
room file x =
    if str_eq x loc_seg_id || str_eq x remote_seg_id
    then seg_size
    else if str_eq x "old"
    then size_of long
    else size_of int

no_message : ℕ → Call → Bool
no_message s c = false

terminates : Call → Bool
terminates Call.proc_term = true
terminates _ = false

unfoldable pub gaspi_library : Library Call
unfolding behaviour collective no_message terminates
gaspi_library = record {
  rules = behaviour;
  collective = collective;
  sends_to = no_message;
  receives_from = no_message;
  gives_back = terminates;
  concerns = λ r owner. r == owner;
  room = room;
}

-- for processes with threads
unfoldable pub threaded_library : Library Call
unfolding gaspi_library threaded behaviour
threaded_library = record gaspi_library { rules = threaded behaviour }
