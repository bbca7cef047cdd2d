-- ===== src/Gaspi/Tests.antt =====
-- The theorems on the tests under GASPI at concrete tests.
use rmarace_bench.Base.{Memᴰ, refl}
use rmarace_bench.Race.Label.{buffer_write, local_load, rma_write}
use rmarace_bench.Threads.Teams.{threaded}
use rmarace_bench.TestCase.{IsMisdescribed, IsMisnamed, IsQuiet, IsRight, pair_of}
use rmarace_bench.Usage.{IsWellFormed}
use rmarace_bench.Gaspi.Conflict.AtRead.{read_read_remote_no}
use rmarace_bench.Gaspi.Conflict.NotifiedLists.{read_list_notify_store_local_yes}
use rmarace_bench.Gaspi.Conflict.WriteRead.{write_store_local_yes}
use rmarace_bench.Gaspi.Guarantees.{behaviour}
use rmarace_bench.Gaspi.Hybrid.Single.{master_local_yes, single_local_no, single_local_yes}
use rmarace_bench.Gaspi.Library.{gaspi_library, threaded_library}
use rmarace_bench.Gaspi.Misc.CallChains.{
  read_load_deep_nesting_remote_no, read_store_deep_nesting_remote_yes,
}
use rmarace_bench.Gaspi.Results.Conflict.{buffer_tests-IsRight, target_tests-IsRight}
use rmarace_bench.Gaspi.Results.Hybrid.{
  hybrid_cases-IsWellFormed, misdescribed_cases-IsMisdescribed, threaded_cases-IsRight,
}
use rmarace_bench.Gaspi.Results.Labels.{misspelt_tests-IsMisnamed, raceless_tests-IsQuiet}
use rmarace_bench.Gaspi.Results.Misc.{pointer_tests-IsRight}
use rmarace_bench.Gaspi.Results.Sync.{misdescribed_waits-IsMisdescribed, waiting_tests-IsRight}
use rmarace_bench.Gaspi.Results.Usage.{gaspi_tests-IsWellFormed}
use rmarace_bench.Gaspi.Sync.LocalWait.{wait_local_no}
use rmarace_bench.Gaspi.Sync.Wait.{wait_write_barrier_remote_yes}

buffer_tests-IsRight_example : IsRight behaviour write_store_local_yes
buffer_tests-IsRight_example =
    buffer_tests-IsRight write_store_local_yes (Memᴰ.tail (Memᴰ.head refl))

target_tests-IsRight_example : IsRight behaviour read_read_remote_no
target_tests-IsRight_example = target_tests-IsRight read_read_remote_no (Memᴰ.tail (Memᴰ.head refl))

waiting_tests-IsRight_example : IsRight behaviour wait_local_no
waiting_tests-IsRight_example = waiting_tests-IsRight wait_local_no (Memᴰ.tail (Memᴰ.head refl))

pointer_tests-IsRight_example : IsRight behaviour read_load_deep_nesting_remote_no
pointer_tests-IsRight_example =
    pointer_tests-IsRight read_load_deep_nesting_remote_no (Memᴰ.tail (Memᴰ.head refl))

gaspi_tests-IsWellFormed_example : IsWellFormed gaspi_library write_store_local_yes
gaspi_tests-IsWellFormed_example =
    gaspi_tests-IsWellFormed write_store_local_yes (Memᴰ.tail (Memᴰ.head refl))

misdescribed_waits-IsMisdescribed_example :
    IsMisdescribed behaviour wait_write_barrier_remote_yes (rma_write, local_load)
misdescribed_waits-IsMisdescribed_example =
    misdescribed_waits-IsMisdescribed wait_write_barrier_remote_yes (rma_write, local_load)
      (Memᴰ.tail (Memᴰ.head refl))

threaded_cases-IsRight_example : IsRight (threaded behaviour) single_local_no
threaded_cases-IsRight_example = threaded_cases-IsRight single_local_no (Memᴰ.tail (Memᴰ.head refl))

misdescribed_cases-IsMisdescribed_example :
    IsMisdescribed (threaded behaviour) single_local_yes (buffer_write, local_load)
misdescribed_cases-IsMisdescribed_example =
    misdescribed_cases-IsMisdescribed single_local_yes (buffer_write, local_load)
      (Memᴰ.tail (Memᴰ.head refl))

hybrid_cases-IsWellFormed_example : IsWellFormed threaded_library master_local_yes
hybrid_cases-IsWellFormed_example =
    hybrid_cases-IsWellFormed master_local_yes (Memᴰ.tail (Memᴰ.head refl))

misspelt_tests-IsMisnamed_example :
    IsMisnamed behaviour read_list_notify_store_local_yes
      (pair_of "gaspi_read_list_notify" 62 "STORE" 75)
misspelt_tests-IsMisnamed_example =
    misspelt_tests-IsMisnamed read_list_notify_store_local_yes
      (pair_of "gaspi_read_list_notify" 62 "STORE" 75) (Memᴰ.tail (Memᴰ.head refl))

raceless_tests-IsQuiet_example : IsQuiet behaviour read_store_deep_nesting_remote_yes
raceless_tests-IsQuiet_example =
    raceless_tests-IsQuiet read_store_deep_nesting_remote_yes (Memᴰ.tail (Memᴰ.head refl))
