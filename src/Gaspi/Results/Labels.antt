-- ===== src/Gaspi/Results/Labels.antt =====
-- Labels under GASPI that say other than what their tests do.
use rmarace_bench.Base.{◌≡◌, refl, true, List, [], ◌∷◌, Memᴰ, all}
use rmarace_bench.Race.Access.{Site}
use rmarace_bench.TestCase.{
  TestCase, pair_of, IsMisnamed, misnamed?, misnamed?-all, IsQuiet, quiet?, quiet?-all,
}
use rmarace_bench.Gaspi.Call.{Call}
use rmarace_bench.Gaspi.Guarantees.{behaviour}
use rmarace_bench.Gaspi.Conflict.NotifiedLists.{
  read_list_notify_load_local_yes, read_list_notify_store_local_yes,
}
use rmarace_bench.Gaspi.Conflict.AtNotifiedLists.{read_list_notify_write_remote_yes}
use rmarace_bench.Gaspi.Sync.Notify.{notify_waitsome_remote_yes}
use rmarace_bench.Gaspi.Misc.CallChains.{
  read_load_deep_nesting_local_yes, read_store_deep_nesting_remote_yes,
}

-- Tests whose label names no call of GASPI, with the pair that is there.
abbrev pub misspelt_tests : List (TestCase Call × (Site × Site))
misspelt_tests =
    (read_list_notify_load_local_yes, pair_of "gaspi_read_list_notify" 62 "LOAD" 75)
    ∷ (read_list_notify_store_local_yes, pair_of "gaspi_read_list_notify" 62 "STORE" 75)
    ∷ (read_list_notify_write_remote_yes, pair_of "gaspi_read_list_notify" 62 "gaspi_write" 80)
    ∷ (notify_waitsome_remote_yes, pair_of "gaspi_write_notify" 64 "LOAD" 72)
    ∷ []

misspelt_tests_checked : all (misnamed? behaviour) misspelt_tests ≡ true
unfolding all behaviour misnamed? read_list_notify_load_local_yes read_list_notify_store_local_yes
    read_list_notify_write_remote_yes notify_waitsome_remote_yes
misspelt_tests_checked = refl

-- The labels of GASPI/conflict/018, 019 and 043 and of GASPI/sync/010 do not hold: no execution
-- that the ordering rules admit has a race between the two statements that they name, since there
-- is no call of the first name. They would hold with the name of the call that stands there.
pub misspelt_tests-IsMisnamed :
    (t : TestCase Call) (p : Site × Site) → Memᴰ (t, p) misspelt_tests → IsMisnamed behaviour t p
misspelt_tests-IsMisnamed = misnamed?-all behaviour misspelt_tests misspelt_tests_checked

-- Tests that are labelled as a race and have none.
abbrev pub raceless_tests : List (TestCase Call)
raceless_tests = read_load_deep_nesting_local_yes ∷ read_store_deep_nesting_remote_yes ∷ []

raceless_tests_checked : all (quiet? behaviour) raceless_tests ≡ true
unfolding all behaviour quiet? read_load_deep_nesting_local_yes read_store_deep_nesting_remote_yes
raceless_tests_checked = refl

-- GASPI/misc/002 and 010 are labelled as a race, but no execution that the ordering rules admit
-- has any: in 002 the load comes before the gaspi_read of the same process, and in 010 the
-- gaspi_read is from the segment of the process that calls it, and the store to that of the other.
-- The label "none" would hold.
pub raceless_tests-IsQuiet : (t : TestCase Call) → Memᴰ t raceless_tests → IsQuiet behaviour t
raceless_tests-IsQuiet = quiet?-all behaviour raceless_tests raceless_tests_checked
