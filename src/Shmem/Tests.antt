-- ===== src/Shmem/Tests.antt =====
-- The theorems on the tests under SHMEM at concrete tests.
use rmarace_bench.Base.{Memᴰ, refl}
use rmarace_bench.Race.Label.{buffer_write, local_load}
use rmarace_bench.Threads.Teams.{threaded}
use rmarace_bench.TestCase.{IsMisdescribed, IsMisnamed, IsRight, pair_of}
use rmarace_bench.Usage.{IsWellFormed}
use rmarace_bench.Shmem.Conflict.GetTarget.{get_get_remote_no}
use rmarace_bench.Shmem.Conflict.LocalBuffer.{putnbi_store_local_yes}
use rmarace_bench.Shmem.Conflict.LocalFetch.{atomicfetchnbi_load_local_yes}
use rmarace_bench.Shmem.Guarantees.{behaviour}
use rmarace_bench.Shmem.Hybrid.Single.{master_local_yes, single_local_no, single_local_yes}
use rmarace_bench.Shmem.Library.{shmem_library, threaded_library}
use rmarace_bench.Shmem.Misc.DeepNesting.{getnbi_load_deep_nesting_local_yes}
use rmarace_bench.Shmem.Results.Conflict.{local_pairs-IsRight, target_pairs-IsRight}
use rmarace_bench.Shmem.Results.Hybrid.{
  hybrid_programs-IsWellFormed, misdescribed_programs-IsMisdescribed, threaded_programs-IsRight,
}
use rmarace_bench.Shmem.Results.Labels.{misnamed_tests-IsMisnamed}
use rmarace_bench.Shmem.Results.Misc.{misc_programs-IsRight}
use rmarace_bench.Shmem.Results.Sync.{completion_tests-IsRight}
use rmarace_bench.Shmem.Results.Usage.{shmem_tests-IsWellFormed}
use rmarace_bench.Shmem.Sync.Quiet.{quiet_local_no}

local_pairs-IsRight_example : IsRight behaviour putnbi_store_local_yes
local_pairs-IsRight_example =
    local_pairs-IsRight putnbi_store_local_yes (Memᴰ.tail (Memᴰ.head refl))

target_pairs-IsRight_example : IsRight behaviour get_get_remote_no
target_pairs-IsRight_example = target_pairs-IsRight get_get_remote_no (Memᴰ.tail (Memᴰ.head refl))

completion_tests-IsRight_example : IsRight behaviour quiet_local_no
completion_tests-IsRight_example =
    completion_tests-IsRight quiet_local_no (Memᴰ.tail (Memᴰ.head refl))

misc_programs-IsRight_example : IsRight behaviour getnbi_load_deep_nesting_local_yes
misc_programs-IsRight_example =
    misc_programs-IsRight getnbi_load_deep_nesting_local_yes (Memᴰ.tail (Memᴰ.head refl))

shmem_tests-IsWellFormed_example : IsWellFormed shmem_library putnbi_store_local_yes
shmem_tests-IsWellFormed_example =
    shmem_tests-IsWellFormed putnbi_store_local_yes (Memᴰ.tail (Memᴰ.head refl))

threaded_programs-IsRight_example : IsRight (threaded behaviour) single_local_no
threaded_programs-IsRight_example =
    threaded_programs-IsRight single_local_no (Memᴰ.tail (Memᴰ.head refl))

misdescribed_programs-IsMisdescribed_example :
    IsMisdescribed (threaded behaviour) single_local_yes (buffer_write, local_load)
misdescribed_programs-IsMisdescribed_example =
    misdescribed_programs-IsMisdescribed single_local_yes (buffer_write, local_load)
      (Memᴰ.tail (Memᴰ.head refl))

hybrid_programs-IsWellFormed_example : IsWellFormed threaded_library master_local_yes
hybrid_programs-IsWellFormed_example =
    hybrid_programs-IsWellFormed master_local_yes (Memᴰ.tail (Memᴰ.head refl))

misnamed_tests-IsMisnamed_example :
    IsMisnamed behaviour atomicfetchnbi_load_local_yes
      (pair_of "shmem_int_atomic_fetch_nbi" 41 "LOAD" 43)
misnamed_tests-IsMisnamed_example =
    misnamed_tests-IsMisnamed atomicfetchnbi_load_local_yes
      (pair_of "shmem_int_atomic_fetch_nbi" 41 "LOAD" 43) (Memᴰ.tail (Memᴰ.head refl))
