-- ===== src/Shmem/Results/Hybrid.antt =====
-- The labels of the tests of SHMEM/hybrid, and their use of OpenSHMEM.
use rmarace_bench.Base.{◌≡◌, refl, true, ◌++◌, List, all, Memᴰ, mem_either, ◌∷◌, []}
use rmarace_bench.TestCase.{
  TestCase, IsRight, right?, right?-all, pair_of, IsMisnamed, misnamed?, misnamed?-IsMisnamed,
  IsMisdescribed, misdescribed?, misdescribed?-all,
}
use rmarace_bench.Shmem.Call.{Call}
use rmarace_bench.Shmem.Guarantees.{behaviour}
use rmarace_bench.Threads.Teams.{threaded}
use rmarace_bench.Usage.{IsWellFormed, well_formed?, well_formed?-all}
use rmarace_bench.Shmem.Library.{threaded_library}
use rmarace_bench.Race.Access.{Site}
use rmarace_bench.Shmem.Hybrid.Single.{
  hybrid_single_tests, master_local_no, master_local_yes, single_local_no, single_local_yes,
  master_remote_no, master_remote_yes, single_remote_no, single_remote_yes,
}
use rmarace_bench.Shmem.Hybrid.Loops.{
  hybrid_loop_tests, for_local_yes, for_ordered_local_no, for_ordered_remote_no, for_remote_yes,
}
use rmarace_bench.Shmem.Hybrid.Sections.{
  hybrid_section_tests, section_local_no, section_local_yes, section_remote_no, section_remote_yes,
  lock_section_barrier_origin_remote_yes,
}
use rmarace_bench.Shmem.Hybrid.Tasks.{
  hybrid_task_tests, task_local_no, task_local_yes, task_remote_no, task_remote_yes,
}
use rmarace_bench.Race.Label.{AccessKind, buffer_write, local_load}

hybrid_single_tests_checked : all (right? (threaded behaviour)) hybrid_single_tests ≡ true
unfolding all threaded behaviour right? master_local_no single_local_no master_remote_no
    master_remote_yes single_remote_no single_remote_yes
hybrid_single_tests_checked = refl

hybrid_single_tests-IsRight :
    (t : TestCase Call) → Memᴰ t hybrid_single_tests → IsRight (threaded behaviour) t
hybrid_single_tests-IsRight =
    right?-all (threaded behaviour) hybrid_single_tests hybrid_single_tests_checked

hybrid_loop_tests_checked : all (right? (threaded behaviour)) hybrid_loop_tests ≡ true
unfolding all threaded behaviour right? for_ordered_local_no for_ordered_remote_no for_remote_yes
hybrid_loop_tests_checked = refl

hybrid_loop_tests-IsRight :
    (t : TestCase Call) → Memᴰ t hybrid_loop_tests → IsRight (threaded behaviour) t
hybrid_loop_tests-IsRight =
    right?-all (threaded behaviour) hybrid_loop_tests hybrid_loop_tests_checked

hybrid_section_tests_checked : all (right? (threaded behaviour)) hybrid_section_tests ≡ true
unfolding all threaded behaviour right? section_local_no section_remote_no section_remote_yes
hybrid_section_tests_checked = refl

hybrid_section_tests-IsRight :
    (t : TestCase Call) → Memᴰ t hybrid_section_tests → IsRight (threaded behaviour) t
hybrid_section_tests-IsRight =
    right?-all (threaded behaviour) hybrid_section_tests hybrid_section_tests_checked

hybrid_task_tests_checked : all (right? (threaded behaviour)) hybrid_task_tests ≡ true
unfolding all threaded behaviour right? task_local_no task_remote_no task_remote_yes
hybrid_task_tests_checked = refl

hybrid_task_tests-IsRight :
    (t : TestCase Call) → Memᴰ t hybrid_task_tests → IsRight (threaded behaviour) t
hybrid_task_tests-IsRight =
    right?-all (threaded behaviour) hybrid_task_tests hybrid_task_tests_checked

abbrev pub threaded_programs : List (TestCase Call)
threaded_programs =
    hybrid_single_tests ++ hybrid_loop_tests ++ hybrid_section_tests ++ hybrid_task_tests

-- The label of each test of SHMEM/hybrid but 001, 004, 006, 008, 010, 021 and 022 (processes with
-- two OpenMP threads) holds, in all executions that the ordering rules of OpenSHMEM and of OpenMP
-- admit: the test can run to its end, every race that it can show is between the two labelled
-- statements, and if a race is announced, one of its kind between these two can be shown, by
-- accesses of the kinds in its ACCESS_SET. The label asks for as many processes as `main` does.
pub threaded_programs-IsRight :
    (t : TestCase Call) → Memᴰ t threaded_programs → IsRight (threaded behaviour) t
threaded_programs-IsRight = mem_either hybrid_single_tests hybrid_single_tests-IsRight (
    mem_either hybrid_loop_tests hybrid_loop_tests-IsRight
      (mem_either hybrid_section_tests hybrid_section_tests-IsRight (hybrid_task_tests-IsRight)))

-- Tests whose ACCESS_SET is not that of their race, with the kinds that are there.
abbrev pub misdescribed_programs : List (TestCase Call × (AccessKind × AccessKind))
misdescribed_programs =
    (master_local_yes, (buffer_write, local_load))
    ∷ (single_local_yes, (buffer_write, local_load))
    ∷ (for_local_yes, (buffer_write, local_load))
    ∷ (section_local_yes, (buffer_write, local_load))
    ∷ (task_local_yes, (buffer_write, local_load))
    ∷ []

misdescribed_programs_checked :
    all (misdescribed? (threaded behaviour)) misdescribed_programs ≡ true
unfolding all threaded behaviour misdescribed? master_local_yes single_local_yes for_local_yes
    section_local_yes task_local_yes
misdescribed_programs_checked = refl

-- The labels of SHMEM/hybrid/001, 004, 006, 008 and 010 do not hold: no race of the kind and
-- between the two statements that they name is, in any execution that the ordering rules of
-- OpenSHMEM and of OpenMP admit, by accesses of the kinds in ACCESS_SET. They would hold with the
-- kinds of the accesses that are there, a one-sided call that writes a buffer of its process and a
-- load.
pub misdescribed_programs-IsMisdescribed :
    (t : TestCase Call) (s : AccessKind × AccessKind)
    → Memᴰ (t, s) misdescribed_programs
    → IsMisdescribed (threaded behaviour) t s
misdescribed_programs-IsMisdescribed =
    misdescribed?-all (threaded behaviour) misdescribed_programs misdescribed_programs_checked

abbrev pub hybrid_programs : List (TestCase Call)
hybrid_programs =
    master_local_no ∷ master_local_yes ∷ single_local_no ∷ single_local_yes ∷ master_remote_no
    ∷ master_remote_yes ∷ single_remote_no ∷ single_remote_yes ∷ for_local_yes
    ∷ for_ordered_local_no ∷ for_ordered_remote_no ∷ for_remote_yes ∷ section_local_no
    ∷ section_local_yes ∷ section_remote_no ∷ section_remote_yes
    ∷ lock_section_barrier_origin_remote_yes ∷ task_local_no ∷ task_local_yes ∷ task_remote_no
    ∷ task_remote_yes ∷ []

hybrid_programs_checked : all (well_formed? threaded_library) hybrid_programs ≡ true
unfolding all well_formed? threaded_library master_local_no master_local_yes single_local_no
    single_local_yes master_remote_no master_remote_yes single_remote_no single_remote_yes
    for_local_yes for_ordered_local_no for_ordered_remote_no for_remote_yes section_local_no
    section_local_yes section_remote_no section_remote_yes lock_section_barrier_origin_remote_yes
    task_local_no task_local_yes task_remote_no task_remote_yes
hybrid_programs_checked = refl

-- Each of the tests of SHMEM/hybrid but 022 uses OpenSHMEM as it must: all its processes make the
-- same collective calls in the same order, no access leaves the variable that it is to, and in
-- every execution that the ordering rules of OpenSHMEM and of OpenMP admit each access of a
-- one-sided call at its target is over before any process enters shmem_finalize.
pub hybrid_programs-IsWellFormed :
    (t : TestCase Call) → Memᴰ t hybrid_programs → IsWellFormed threaded_library t
hybrid_programs-IsWellFormed =
    well_formed?-all threaded_library hybrid_programs hybrid_programs_checked

abbrev pub int_put_load : Site × Site
int_put_load = pair_of "shmem_int_put" 51 "LOAD" 67

section_put_checked :
    misnamed? (threaded behaviour) (lock_section_barrier_origin_remote_yes, int_put_load) ≡ true
unfolding threaded behaviour misnamed? lock_section_barrier_origin_remote_yes
section_put_checked = refl

-- The label of SHMEM/hybrid/021 does not hold: no execution that the ordering rules admit has a
-- race between the two statements that it names, since the call in line 51 is shmem_int_put and
-- not shmem_put. It would hold with that name.
pub section_put-IsMisnamed :
    IsMisnamed (threaded behaviour) lock_section_barrier_origin_remote_yes int_put_load
section_put-IsMisnamed =
    misnamed?-IsMisnamed (threaded behaviour) lock_section_barrier_origin_remote_yes int_put_load
      section_put_checked
