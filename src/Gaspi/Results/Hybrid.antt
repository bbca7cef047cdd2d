-- ===== src/Gaspi/Results/Hybrid.antt =====
-- The labels of the tests of GASPI/hybrid, and their use of GASPI.
use rmarace_bench.Base.{◌≡◌, refl, true, ◌++◌, List, all, Memᴰ, mem_either, ◌∷◌, []}
use rmarace_bench.TestCase.{
  TestCase, IsRight, right?, right?-all, racy, behaviour_of, IsMisdescribed, misdescribed?,
  misdescribed?-all,
}
use rmarace_bench.Gaspi.Call.{Call}
use rmarace_bench.Gaspi.Guarantees.{behaviour}
use rmarace_bench.Threads.Teams.{threaded}
use rmarace_bench.Usage.{IsWellFormed, well_formed?, well_formed?-all}
use rmarace_bench.Gaspi.Library.{threaded_library}
use rmarace_bench.Race.Label.{
  Label, LabelHolds, local_race, remote_race, rma_read, local_store, buffer_write, buffer_read,
  local_load, NamedRace, named_race?, named_race?-NamedRace, label?, label?-LabelHolds, unlabelled?,
  unlabelled?-not_LabelHolds, AccessKind, rma_write,
}
use rmarace_bench.Gaspi.Hybrid.Single.{
  hybrid_single_tests, master_local_no, master_local_yes, single_local_no, single_local_yes,
  master_remote_no, master_remote_yes, single_remote_no, single_remote_yes,
}
use rmarace_bench.Gaspi.Hybrid.Loops.{
  hybrid_loop_tests, for_local_yes, for_ordered_local_no, for_ordered_remote_no, for_remote_yes,
}
use rmarace_bench.Gaspi.Hybrid.Sections.{
  hybrid_section_tests, section_local_no, section_local_yes, section_remote_no, section_remote_yes,
  lock_section_barrier_origin_remote_yes, lock_section_barrier_origin_p2p_remote_yes,
}
use rmarace_bench.Gaspi.Hybrid.Tasks.{
  hybrid_task_tests, task_local_no, task_local_yes, task_remote_no, task_remote_yes,
}

hybrid_single_tests_checked : all (right? (threaded behaviour)) hybrid_single_tests ≡ true
unfolding all threaded behaviour right? master_local_no single_local_no master_remote_no
    single_remote_no
hybrid_single_tests_checked = refl

hybrid_single_tests-IsRight :
    (t : TestCase Call) → Memᴰ t hybrid_single_tests → IsRight (threaded behaviour) t
hybrid_single_tests-IsRight =
    right?-all (threaded behaviour) hybrid_single_tests hybrid_single_tests_checked

hybrid_loop_tests_checked : all (right? (threaded behaviour)) hybrid_loop_tests ≡ true
unfolding all threaded behaviour right? for_ordered_local_no for_ordered_remote_no
hybrid_loop_tests_checked = refl

hybrid_loop_tests-IsRight :
    (t : TestCase Call) → Memᴰ t hybrid_loop_tests → IsRight (threaded behaviour) t
hybrid_loop_tests-IsRight =
    right?-all (threaded behaviour) hybrid_loop_tests hybrid_loop_tests_checked

hybrid_section_tests_checked : all (right? (threaded behaviour)) hybrid_section_tests ≡ true
unfolding all threaded behaviour right? section_local_no section_remote_no
hybrid_section_tests_checked = refl

hybrid_section_tests-IsRight :
    (t : TestCase Call) → Memᴰ t hybrid_section_tests → IsRight (threaded behaviour) t
hybrid_section_tests-IsRight =
    right?-all (threaded behaviour) hybrid_section_tests hybrid_section_tests_checked

hybrid_task_tests_checked : all (right? (threaded behaviour)) hybrid_task_tests ≡ true
unfolding all threaded behaviour right? task_local_no task_remote_no
hybrid_task_tests_checked = refl

hybrid_task_tests-IsRight :
    (t : TestCase Call) → Memᴰ t hybrid_task_tests → IsRight (threaded behaviour) t
hybrid_task_tests-IsRight =
    right?-all (threaded behaviour) hybrid_task_tests hybrid_task_tests_checked

abbrev pub threaded_cases : List (TestCase Call)
threaded_cases =
    hybrid_single_tests ++ hybrid_loop_tests ++ hybrid_section_tests ++ hybrid_task_tests

-- The label of each test of GASPI/hybrid/002, 003, 005, 007, 009, 011, 013, 015, 017 and 019
-- (processes with two OpenMP threads) holds, in all executions that the ordering rules of GASPI
-- and of OpenMP admit: the test can run to its end, every race that it can show is between the two
-- labelled statements, and if a race is announced, one of its kind between these two can be shown,
-- by accesses of the kinds in its ACCESS_SET. The label asks for as many processes as `main` does.
pub threaded_cases-IsRight :
    (t : TestCase Call) → Memᴰ t threaded_cases → IsRight (threaded behaviour) t
threaded_cases-IsRight = mem_either hybrid_single_tests hybrid_single_tests-IsRight (
    mem_either hybrid_loop_tests hybrid_loop_tests-IsRight
      (mem_either hybrid_section_tests hybrid_section_tests-IsRight (hybrid_task_tests-IsRight)))

-- Tests whose ACCESS_SET is not that of their race, with the kinds that are there.
abbrev pub misdescribed_cases : List (TestCase Call × (AccessKind × AccessKind))
misdescribed_cases =
    (master_local_yes, (buffer_write, local_load))
    ∷ (single_local_yes, (buffer_write, local_load))
    ∷ (master_remote_yes, (rma_write, local_load))
    ∷ (single_remote_yes, (rma_write, local_load))
    ∷ (for_local_yes, (buffer_write, local_load))
    ∷ (for_remote_yes, (rma_read, local_store))
    ∷ (section_local_yes, (buffer_write, local_load))
    ∷ (section_remote_yes, (rma_read, local_store))
    ∷ (lock_section_barrier_origin_remote_yes, (rma_read, local_store))
    ∷ (task_remote_yes, (rma_read, local_store))
    ∷ []

misdescribed_cases_checked : all (misdescribed? (threaded behaviour)) misdescribed_cases ≡ true
unfolding all threaded behaviour misdescribed? master_local_yes single_local_yes master_remote_yes
    single_remote_yes for_local_yes for_remote_yes section_local_yes section_remote_yes
    lock_section_barrier_origin_remote_yes task_remote_yes
misdescribed_cases_checked = refl

-- The labels of GASPI/hybrid/001, 004, 006, 008, 012, 014, 016, 018, 020 and 021 do not hold: no
-- race of the kind and between the two statements that they name is, in any execution that the
-- ordering rules of GASPI and of OpenMP admit, by accesses of the kinds in ACCESS_SET. They would
-- hold with the kinds of the accesses that are there.
pub misdescribed_cases-IsMisdescribed :
    (t : TestCase Call) (s : AccessKind × AccessKind)
    → Memᴰ (t, s) misdescribed_cases
    → IsMisdescribed (threaded behaviour) t s
misdescribed_cases-IsMisdescribed =
    misdescribed?-all (threaded behaviour) misdescribed_cases misdescribed_cases_checked

abbrev pub hybrid_cases : List (TestCase Call)
hybrid_cases =
    master_local_no ∷ master_local_yes ∷ single_local_no ∷ single_local_yes ∷ master_remote_no
    ∷ master_remote_yes ∷ single_remote_no ∷ single_remote_yes ∷ for_local_yes
    ∷ for_ordered_local_no ∷ for_ordered_remote_no ∷ for_remote_yes ∷ section_local_no
    ∷ section_local_yes ∷ section_remote_no ∷ section_remote_yes
    ∷ lock_section_barrier_origin_remote_yes ∷ lock_section_barrier_origin_p2p_remote_yes
    ∷ task_local_no ∷ task_local_yes ∷ task_remote_no ∷ task_remote_yes ∷ []

hybrid_cases_checked : all (well_formed? threaded_library) hybrid_cases ≡ true
unfolding all well_formed? threaded_library master_local_no master_local_yes single_local_no
    single_local_yes master_remote_no master_remote_yes single_remote_no single_remote_yes
    for_local_yes for_ordered_local_no for_ordered_remote_no for_remote_yes section_local_no
    section_local_yes section_remote_no section_remote_yes lock_section_barrier_origin_remote_yes
    lock_section_barrier_origin_p2p_remote_yes task_local_no task_local_yes task_remote_no
    task_remote_yes
hybrid_cases_checked = refl

-- Each of the tests of GASPI/hybrid uses GASPI as it must: all its processes make the same
-- collective calls in the same order, no access leaves the segment or the variable that it is to,
-- and in every execution that the ordering rules of GASPI and of OpenMP admit each access of a
-- one-sided call at its target is over before the process with the segment enters gaspi_proc_term.
pub hybrid_cases-IsWellFormed :
    (t : TestCase Call) → Memᴰ t hybrid_cases → IsWellFormed threaded_library t
hybrid_cases-IsWellFormed = well_formed?-all threaded_library hybrid_cases hybrid_cases_checked

abbrev pub read_load : Label
read_load = racy local_race buffer_write local_load "gaspi_read" 94 "LOAD" 101 2

abbrev pub read_store : Label
read_store = racy remote_race rma_read local_store "gaspi_read" 77 "STORE" 97 2

abbrev pub read_send : Label
read_send = racy local_race buffer_write buffer_read "gaspi_read" 77 "gaspi_passive_send" 84 2

task_read_checked :
    (unlabelled? task_local_yes.label (behaviour_of (threaded behaviour) task_local_yes) ≡ true)
    × (label? read_load (behaviour_of (threaded behaviour) task_local_yes) ≡ true)
unfolding label? unlabelled? threaded behaviour behaviour_of task_local_yes
task_read_checked = (refl, refl)

section_send_checked :
    (named_race? read_store
        (behaviour_of (threaded behaviour) lock_section_barrier_origin_p2p_remote_yes)
      ≡ true)
    × (named_race? read_send
          (behaviour_of (threaded behaviour) lock_section_barrier_origin_p2p_remote_yes)
        ≡ true)
unfolding named_race? threaded behaviour behaviour_of lock_section_barrier_origin_p2p_remote_yes
section_send_checked = (refl, refl)

-- The label of GASPI/hybrid/010 does not hold, since the statement in line 101 is a load and not a
-- store; it would hold with that name and the kinds of accesses that are there. GASPI/hybrid/022
-- can show a remote race of the two statements that its label names, by a one-sided read and a
-- store, and a second race that the label does not name: the gaspi_read of one section writes the
-- local segment that the gaspi_passive_send of the other section reads, a local race.
pub thread_labels-IsMisnamed :
    (¬ LabelHolds task_local_yes.label (behaviour_of (threaded behaviour) task_local_yes))
    × LabelHolds read_load (behaviour_of (threaded behaviour) task_local_yes)
    × NamedRace read_store
        (behaviour_of (threaded behaviour) lock_section_barrier_origin_p2p_remote_yes)
    × NamedRace read_send
        (behaviour_of (threaded behaviour) lock_section_barrier_origin_p2p_remote_yes)
unfolding task_local_yes
thread_labels-IsMisnamed = (
  unlabelled?-not_LabelHolds _ _ (λ e. cc (e)) task_read_checked.0,
  label?-LabelHolds _ _ task_read_checked.1,
  named_race?-NamedRace _ _ section_send_checked.0,
  named_race?-NamedRace _ _ section_send_checked.1,
)
