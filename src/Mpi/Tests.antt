-- ===== src/Mpi/Tests.antt =====
-- The theorems on the tests under MPIRMA at concrete tests.
use rmarace_bench.Base.{Memᴰ, refl}
use rmarace_bench.Race.Label.{buffer_write, local_load}
use rmarace_bench.Threads.Teams.{threaded}
use rmarace_bench.TestCase.{IsMisdescribed, IsRight}
use rmarace_bench.Usage.{IsWellFormed}
use rmarace_bench.Mpi.Conflict.GetRemote.{get_get_remote_no}
use rmarace_bench.Mpi.Conflict.Local.{put_store_local_yes}
use rmarace_bench.Mpi.Guarantees.{behaviour}
use rmarace_bench.Mpi.Hybrid.Single.{master_local_no, single_local_no, single_local_yes}
use rmarace_bench.Mpi.Library.{mpi_library, threaded_library}
use rmarace_bench.Mpi.Misc.Nesting.{get_load_deep_nesting_local_yes}
use rmarace_bench.Mpi.Results.Conflict.{local_conflicts-IsRight, target_conflicts-IsRight}
use rmarace_bench.Mpi.Results.Hybrid.{
  hybrid_tests-IsWellFormed, misdescribed_tests-IsMisdescribed, threaded_tests-IsRight,
}
use rmarace_bench.Mpi.Results.Misc.{misc_tests-IsRight}
use rmarace_bench.Mpi.Results.Sync.{active_sync-IsRight, ordered_sync-IsRight, passive_sync-IsRight}
use rmarace_bench.Mpi.Results.Usage.{mpi_tests-IsWellFormed}
use rmarace_bench.Mpi.Sync.Fence.{fence_3procs_remote_yes}
use rmarace_bench.Mpi.Sync.Lock.{lock_local_no}
use rmarace_bench.Mpi.Sync.LockBarrier.{lock_barrier_remote_yes}

local_conflicts-IsRight_example : IsRight behaviour put_store_local_yes
local_conflicts-IsRight_example =
    local_conflicts-IsRight put_store_local_yes (Memᴰ.tail (Memᴰ.head refl))

target_conflicts-IsRight_example : IsRight behaviour get_get_remote_no
target_conflicts-IsRight_example =
    target_conflicts-IsRight get_get_remote_no (Memᴰ.tail (Memᴰ.head refl))

active_sync-IsRight_example : IsRight behaviour fence_3procs_remote_yes
active_sync-IsRight_example =
    active_sync-IsRight fence_3procs_remote_yes (Memᴰ.tail (Memᴰ.head refl))

passive_sync-IsRight_example : IsRight behaviour lock_local_no
passive_sync-IsRight_example = passive_sync-IsRight lock_local_no (Memᴰ.tail (Memᴰ.head refl))

ordered_sync-IsRight_example : IsRight behaviour lock_barrier_remote_yes
ordered_sync-IsRight_example =
    ordered_sync-IsRight lock_barrier_remote_yes (Memᴰ.tail (Memᴰ.head refl))

misc_tests-IsRight_example : IsRight behaviour get_load_deep_nesting_local_yes
misc_tests-IsRight_example =
    misc_tests-IsRight get_load_deep_nesting_local_yes (Memᴰ.tail (Memᴰ.head refl))

mpi_tests-IsWellFormed_example : IsWellFormed mpi_library put_store_local_yes
mpi_tests-IsWellFormed_example =
    mpi_tests-IsWellFormed put_store_local_yes (Memᴰ.tail (Memᴰ.head refl))

threaded_tests-IsRight_example : IsRight (threaded behaviour) single_local_no
threaded_tests-IsRight_example = threaded_tests-IsRight single_local_no (Memᴰ.tail (Memᴰ.head refl))

misdescribed_tests-IsMisdescribed_example :
    IsMisdescribed (threaded behaviour) single_local_yes (buffer_write, local_load)
misdescribed_tests-IsMisdescribed_example =
    misdescribed_tests-IsMisdescribed single_local_yes (buffer_write, local_load)
      (Memᴰ.tail (Memᴰ.head refl))

hybrid_tests-IsWellFormed_example : IsWellFormed threaded_library master_local_no
hybrid_tests-IsWellFormed_example =
    hybrid_tests-IsWellFormed master_local_no (Memᴰ.tail (Memᴰ.head refl))
