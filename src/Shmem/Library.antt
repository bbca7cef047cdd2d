-- ===== src/Shmem/Library.antt =====
-- OpenSHMEM as the tests use it.
use rmarace_bench.Base.{
  ℕ, ◌&&◌, ◌||◌, String, Bool, true, false, Option, none, some, str_eq, if◌then◌else◌,
}
use rmarace_bench.Race.Access.{size_of, int}
use rmarace_bench.Usage.{Library}
use rmarace_bench.Threads.Teams.{threaded}
use rmarace_bench.Shmem.Call.{Call}
use rmarace_bench.Shmem.Guarantees.{behaviour}

-- The calls that all processes have to make in the same order.
collective : Call → Option String
collective Call.init = some "shmem_init"
collective Call.barrier_all = some "shmem_barrier_all"
collective Call.sync = some "shmem_sync"
collective Call.sync_all = some "shmem_sync_all"
collective Call.finalize = some "shmem_finalize"
collective _ = none

-- `flag` of these two tests is a uint64_t, that of the others an integer.
signal_flags : String → Bool
signal_flags file =
    str_eq file "SHMEM/sync/005-shmem-sync-waituntil-local-no.c"
    || str_eq file "SHMEM/sync/006-shmem-sync-waituntil-local-yes.c"

-- `value` of this test is a long, that of the others an integer.
long_value : String → Bool
long_value file = str_eq file "SHMEM/atomic/007-shmem-atomic-int-long-remote-yes.c"

-- A signal is a uint64_t and `val` a double; each other variable is an integer.
pub room : String → String → ℕ
unfolding signal_flags long_value
room file x =
    if str_eq x "psn_sig_addr" || str_eq x "ps_sig_addr" || str_eq x "ps_sig_addr2"
    then 8
    else if str_eq x "val"
        || (str_eq x "value" && long_value file)
        || (str_eq x "flag" && signal_flags file)
    then 8
    else size_of int

no_message : ℕ → Call → Bool
no_message s c = false

finalizes : Call → Bool
finalizes Call.finalize = true
finalizes _ = false

unfoldable pub shmem_library : Library Call
unfolding behaviour collective no_message finalizes room
shmem_library = record {
  rules = behaviour;
  collective = collective;
  sends_to = no_message;
  receives_from = no_message;
  gives_back = finalizes;
  concerns = λ r owner. true;
  room = room;
}

-- for processes with threads
unfoldable pub threaded_library : Library Call
unfolding shmem_library threaded behaviour
threaded_library = record shmem_library { rules = threaded behaviour }
