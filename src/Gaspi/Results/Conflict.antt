-- ===== src/Gaspi/Results/Conflict.antt =====
-- The labels of the tests of GASPI/conflict and atomic, and their use of GASPI.
use rmarace_bench.Base.{◌≡◌, refl, true, ◌++◌, ◌∷◌, [], List, all, Memᴰ, mem_either}
use rmarace_bench.TestCase.{TestCase, IsRight, right?, right?-all}
use rmarace_bench.Gaspi.Call.{Call}
use rmarace_bench.Gaspi.Guarantees.{behaviour}
use rmarace_bench.Gaspi.Library.{gaspi_library}
use rmarace_bench.Usage.{IsWellFormed, well_formed?, well_formed?-all}
use rmarace_bench.Gaspi.Conflict.WriteRead.{
  write_read_tests, write_load_local_no, write_store_local_yes, write_write_local_no,
  read_load_local_yes, read_store_local_yes, read_write_local_yes, read_read_local_yes,
}
use rmarace_bench.Gaspi.Conflict.Lists.{
  lists_tests, write_list_load_local_no, write_list_store_local_yes, read_list_load_local_yes,
  read_list_store_local_yes,
}
use rmarace_bench.Gaspi.Conflict.Notified.{
  notified_tests, write_notify_load_local_no, write_notify_store_local_yes,
  read_notify_load_local_yes, read_notify_store_local_yes,
}
use rmarace_bench.Gaspi.Conflict.NotifiedLists.{
  notified_lists_tests, write_list_notify_load_local_no, write_list_notify_store_local_yes,
  read_list_notify_load_local_yes, read_list_notify_store_local_yes,
}
use rmarace_bench.Gaspi.Conflict.AtRead.{
  at_read_tests, read_load_remote_no, read_read_remote_no, read_store_remote_yes,
  read_write_remote_yes, read_fetchadd_remote_yes,
}
use rmarace_bench.Gaspi.Conflict.AtWrite.{
  at_write_tests, write_load_remote_yes, write_store_remote_yes, write_write_remote_yes,
  write_fetchadd_remote_yes, fetchadd_load_remote_yes, fetchadd_store_remote_yes,
  fetchadd_fetchadd_remote_no,
}
use rmarace_bench.Gaspi.Conflict.AtLists.{
  at_lists_tests, write_list_load_remote_yes, write_list_write_remote_yes, read_list_load_remote_no,
  read_list_write_remote_yes,
}
use rmarace_bench.Gaspi.Conflict.AtNotified.{
  at_notified_tests, write_notify_load_remote_yes, write_notify_write_remote_yes,
  read_notify_load_remote_no, read_notify_write_remote_yes,
}
use rmarace_bench.Gaspi.Conflict.AtNotifiedLists.{
  at_notified_lists_tests, write_list_notify_load_remote_yes, write_list_notify_write_remote_yes,
  read_list_notify_load_remote_no, read_list_notify_write_remote_yes,
}
use rmarace_bench.Gaspi.Atomic.{
  atomic_tests, fetchadd_fetchadd_remote_no as atomic_fetchadds_remote_no,
  fetchadd_fetchadd_remote_offset_yes, fetchadd_fetchadd_remote_offset_no,
}

write_read_tests_checked : all (right? behaviour) write_read_tests ≡ true
unfolding all behaviour right? write_load_local_no write_store_local_yes write_write_local_no
    read_load_local_yes read_store_local_yes read_write_local_yes read_read_local_yes
write_read_tests_checked = refl

write_read_tests-IsRight : (t : TestCase Call) → Memᴰ t write_read_tests → IsRight behaviour t
write_read_tests-IsRight = right?-all behaviour write_read_tests write_read_tests_checked

lists_tests_checked : all (right? behaviour) lists_tests ≡ true
unfolding all behaviour right? write_list_load_local_no write_list_store_local_yes
    read_list_load_local_yes read_list_store_local_yes
lists_tests_checked = refl

lists_tests-IsRight : (t : TestCase Call) → Memᴰ t lists_tests → IsRight behaviour t
lists_tests-IsRight = right?-all behaviour lists_tests lists_tests_checked

notified_tests_checked : all (right? behaviour) notified_tests ≡ true
unfolding all behaviour right? write_notify_load_local_no write_notify_store_local_yes
    read_notify_load_local_yes read_notify_store_local_yes
notified_tests_checked = refl

notified_tests-IsRight : (t : TestCase Call) → Memᴰ t notified_tests → IsRight behaviour t
notified_tests-IsRight = right?-all behaviour notified_tests notified_tests_checked

notified_lists_tests_checked : all (right? behaviour) notified_lists_tests ≡ true
unfolding all behaviour right? write_list_notify_load_local_no write_list_notify_store_local_yes
notified_lists_tests_checked = refl

notified_lists_tests-IsRight :
    (t : TestCase Call) → Memᴰ t notified_lists_tests → IsRight behaviour t
notified_lists_tests-IsRight =
    right?-all behaviour notified_lists_tests notified_lists_tests_checked

abbrev pub buffer_tests : List (TestCase Call)
buffer_tests = write_read_tests ++ lists_tests ++ notified_tests ++ notified_lists_tests

-- The label of each test of GASPI/conflict/001 to 017 (an operation, and a second use of its local
-- buffer) holds, in all executions that the ordering rules of GASPI admit: the test can run to its
-- end, every race that it can show is between the two labelled statements, and if a race is
-- announced, one of its kind between these two can be shown, by accesses of the kinds in its
-- ACCESS_SET. The label asks for as many processes as `main` does.
pub buffer_tests-IsRight : (t : TestCase Call) → Memᴰ t buffer_tests → IsRight behaviour t
buffer_tests-IsRight = mem_either write_read_tests write_read_tests-IsRight (
    mem_either lists_tests lists_tests-IsRight
      (mem_either notified_tests notified_tests-IsRight notified_lists_tests-IsRight))

at_read_tests_checked : all (right? behaviour) at_read_tests ≡ true
unfolding all behaviour right? read_load_remote_no read_read_remote_no read_store_remote_yes
    read_write_remote_yes read_fetchadd_remote_yes
at_read_tests_checked = refl

at_read_tests-IsRight : (t : TestCase Call) → Memᴰ t at_read_tests → IsRight behaviour t
at_read_tests-IsRight = right?-all behaviour at_read_tests at_read_tests_checked

at_write_tests_checked : all (right? behaviour) at_write_tests ≡ true
unfolding all behaviour right? write_load_remote_yes write_store_remote_yes write_write_remote_yes
    write_fetchadd_remote_yes fetchadd_load_remote_yes fetchadd_store_remote_yes
    fetchadd_fetchadd_remote_no
at_write_tests_checked = refl

at_write_tests-IsRight : (t : TestCase Call) → Memᴰ t at_write_tests → IsRight behaviour t
at_write_tests-IsRight = right?-all behaviour at_write_tests at_write_tests_checked

at_lists_tests_checked : all (right? behaviour) at_lists_tests ≡ true
unfolding all behaviour right? write_list_load_remote_yes write_list_write_remote_yes
    read_list_load_remote_no read_list_write_remote_yes
at_lists_tests_checked = refl

at_lists_tests-IsRight : (t : TestCase Call) → Memᴰ t at_lists_tests → IsRight behaviour t
at_lists_tests-IsRight = right?-all behaviour at_lists_tests at_lists_tests_checked

at_notified_tests_checked : all (right? behaviour) at_notified_tests ≡ true
unfolding all behaviour right? write_notify_load_remote_yes write_notify_write_remote_yes
    read_notify_load_remote_no read_notify_write_remote_yes
at_notified_tests_checked = refl

at_notified_tests-IsRight : (t : TestCase Call) → Memᴰ t at_notified_tests → IsRight behaviour t
at_notified_tests-IsRight = right?-all behaviour at_notified_tests at_notified_tests_checked

at_notified_lists_tests_checked : all (right? behaviour) at_notified_lists_tests ≡ true
unfolding all behaviour right? write_list_notify_load_remote_yes write_list_notify_write_remote_yes
    read_list_notify_load_remote_no
at_notified_lists_tests_checked = refl

at_notified_lists_tests-IsRight :
    (t : TestCase Call) → Memᴰ t at_notified_lists_tests → IsRight behaviour t
at_notified_lists_tests-IsRight =
    right?-all behaviour at_notified_lists_tests at_notified_lists_tests_checked

atomic_tests_checked : all (right? behaviour) atomic_tests ≡ true
unfolding all behaviour right? atomic_fetchadds_remote_no fetchadd_fetchadd_remote_offset_yes
    fetchadd_fetchadd_remote_offset_no
atomic_tests_checked = refl

atomic_tests-IsRight : (t : TestCase Call) → Memᴰ t atomic_tests → IsRight behaviour t
atomic_tests-IsRight = right?-all behaviour atomic_tests atomic_tests_checked

abbrev pub target_tests : List (TestCase Call)
target_tests =
    at_read_tests ++ at_write_tests ++ at_lists_tests ++ at_notified_tests
    ++ at_notified_lists_tests ++ atomic_tests

-- The label of each test of GASPI/conflict/020 to 042 and GASPI/atomic (an operation, and a second
-- access to its target) holds, in all executions that the ordering rules of GASPI admit: the test
-- can run to its end, every race that it can show is between the two labelled statements, and if a
-- race is announced, one of its kind between these two can be shown, by accesses of the kinds in
-- its ACCESS_SET. The label asks for as many processes as `main` does.
pub target_tests-IsRight : (t : TestCase Call) → Memᴰ t target_tests → IsRight behaviour t
target_tests-IsRight = mem_either at_read_tests at_read_tests-IsRight (
    mem_either at_write_tests at_write_tests-IsRight (
      mem_either at_lists_tests at_lists_tests-IsRight (
        mem_either at_notified_tests at_notified_tests-IsRight (
          mem_either at_notified_lists_tests at_notified_lists_tests-IsRight
            atomic_tests-IsRight))))

abbrev pub conflict_cases : List (TestCase Call)
conflict_cases =
    write_load_local_no ∷ write_store_local_yes ∷ write_write_local_no ∷ read_load_local_yes
    ∷ read_store_local_yes ∷ read_write_local_yes ∷ read_read_local_yes ∷ write_list_load_local_no
    ∷ write_list_store_local_yes ∷ read_list_load_local_yes ∷ read_list_store_local_yes
    ∷ write_notify_load_local_no ∷ write_notify_store_local_yes ∷ read_notify_load_local_yes
    ∷ read_notify_store_local_yes ∷ write_list_notify_load_local_no
    ∷ write_list_notify_store_local_yes ∷ read_list_notify_load_local_yes
    ∷ read_list_notify_store_local_yes ∷ read_load_remote_no ∷ read_read_remote_no
    ∷ read_store_remote_yes ∷ read_write_remote_yes ∷ read_fetchadd_remote_yes
    ∷ write_load_remote_yes ∷ write_store_remote_yes ∷ write_write_remote_yes
    ∷ write_fetchadd_remote_yes ∷ fetchadd_load_remote_yes ∷ fetchadd_store_remote_yes
    ∷ fetchadd_fetchadd_remote_no ∷ write_list_load_remote_yes ∷ write_list_write_remote_yes
    ∷ read_list_load_remote_no ∷ read_list_write_remote_yes ∷ write_notify_load_remote_yes
    ∷ write_notify_write_remote_yes ∷ read_notify_load_remote_no ∷ read_notify_write_remote_yes
    ∷ write_list_notify_load_remote_yes ∷ write_list_notify_write_remote_yes
    ∷ read_list_notify_load_remote_no ∷ read_list_notify_write_remote_yes
    ∷ atomic_fetchadds_remote_no ∷ fetchadd_fetchadd_remote_offset_yes
    ∷ fetchadd_fetchadd_remote_offset_no ∷ []

conflict_cases_usage : all (well_formed? gaspi_library) conflict_cases ≡ true
unfolding all well_formed? gaspi_library write_load_local_no write_store_local_yes
    write_write_local_no read_load_local_yes read_store_local_yes read_write_local_yes
    read_read_local_yes write_list_load_local_no write_list_store_local_yes read_list_load_local_yes
    read_list_store_local_yes write_notify_load_local_no write_notify_store_local_yes
    read_notify_load_local_yes read_notify_store_local_yes write_list_notify_load_local_no
    write_list_notify_store_local_yes read_list_notify_load_local_yes
    read_list_notify_store_local_yes read_load_remote_no read_read_remote_no read_store_remote_yes
    read_write_remote_yes read_fetchadd_remote_yes write_load_remote_yes write_store_remote_yes
    write_write_remote_yes write_fetchadd_remote_yes fetchadd_load_remote_yes
    fetchadd_store_remote_yes fetchadd_fetchadd_remote_no write_list_load_remote_yes
    write_list_write_remote_yes read_list_load_remote_no read_list_write_remote_yes
    write_notify_load_remote_yes write_notify_write_remote_yes read_notify_load_remote_no
    read_notify_write_remote_yes write_list_notify_load_remote_yes
    write_list_notify_write_remote_yes read_list_notify_load_remote_no
    read_list_notify_write_remote_yes atomic_fetchadds_remote_no fetchadd_fetchadd_remote_offset_yes
    fetchadd_fetchadd_remote_offset_no
conflict_cases_usage = refl

pub conflict_cases-IsWellFormed :
    (t : TestCase Call) → Memᴰ t conflict_cases → IsWellFormed gaspi_library t
conflict_cases-IsWellFormed = well_formed?-all gaspi_library conflict_cases conflict_cases_usage
