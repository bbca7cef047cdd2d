-- ===== src/Mpi/Results/Hybrid.antt =====
-- The labels of the tests of MPIRMA/hybrid, and their use of MPI.
use rmarace_bench.Base.{◌≡◌, refl, true, ◌++◌, List, all, Memᴰ, mem_either, ◌∷◌, []}
use rmarace_bench.TestCase.{
  TestCase, IsRight, right?, right?-all, IsMisdescribed, misdescribed?, misdescribed?-all,
}
use rmarace_bench.Mpi.Call.{Call}
use rmarace_bench.Mpi.Guarantees.{behaviour}
use rmarace_bench.Threads.Teams.{threaded}
use rmarace_bench.Usage.{IsWellFormed, well_formed?, well_formed?-all}
use rmarace_bench.Mpi.Library.{threaded_library}
use rmarace_bench.Mpi.Hybrid.Single.{
  hybrid_single_tests, master_local_yes, master_local_no, single_local_yes, single_local_no,
  master_remote_yes, master_remote_no, single_remote_yes, single_remote_no,
}
use rmarace_bench.Mpi.Hybrid.Loops.{
  hybrid_loop_tests, ordered_local_no, for_local_yes, ordered_remote_no, for_remote_yes,
}
use rmarace_bench.Mpi.Hybrid.Sections.{
  hybrid_section_tests, section_local_yes, section_local_no, section_remote_yes, section_remote_no,
  section_barrier_origin_remote_yes, section_sendrecv_origin_remote_yes,
}
use rmarace_bench.Mpi.Hybrid.Tasks.{
  hybrid_task_tests, task_local_yes, task_local_no, task_remote_yes, task_remote_no,
}
use rmarace_bench.Race.Label.{AccessKind, buffer_write, local_load}

hybrid_single_tests_checked : all (right? (threaded behaviour)) hybrid_single_tests ≡ true
unfolding all threaded behaviour right? master_local_no single_local_no master_remote_yes
    master_remote_no single_remote_yes single_remote_no
hybrid_single_tests_checked = refl

hybrid_single_tests-IsRight :
    (t : TestCase Call) → Memᴰ t hybrid_single_tests → IsRight (threaded behaviour) t
hybrid_single_tests-IsRight =
    right?-all (threaded behaviour) hybrid_single_tests hybrid_single_tests_checked

hybrid_loop_tests_checked : all (right? (threaded behaviour)) hybrid_loop_tests ≡ true
unfolding all threaded behaviour right? ordered_local_no ordered_remote_no for_remote_yes
hybrid_loop_tests_checked = refl

hybrid_loop_tests-IsRight :
    (t : TestCase Call) → Memᴰ t hybrid_loop_tests → IsRight (threaded behaviour) t
hybrid_loop_tests-IsRight =
    right?-all (threaded behaviour) hybrid_loop_tests hybrid_loop_tests_checked

hybrid_section_tests_checked : all (right? (threaded behaviour)) hybrid_section_tests ≡ true
unfolding all threaded behaviour right? section_local_no section_remote_yes section_remote_no
    section_barrier_origin_remote_yes section_sendrecv_origin_remote_yes
hybrid_section_tests_checked = refl

hybrid_section_tests-IsRight :
    (t : TestCase Call) → Memᴰ t hybrid_section_tests → IsRight (threaded behaviour) t
hybrid_section_tests-IsRight =
    right?-all (threaded behaviour) hybrid_section_tests hybrid_section_tests_checked

hybrid_task_tests_checked : all (right? (threaded behaviour)) hybrid_task_tests ≡ true
unfolding all threaded behaviour right? task_local_no task_remote_yes task_remote_no
hybrid_task_tests_checked = refl

hybrid_task_tests-IsRight :
    (t : TestCase Call) → Memᴰ t hybrid_task_tests → IsRight (threaded behaviour) t
hybrid_task_tests-IsRight =
    right?-all (threaded behaviour) hybrid_task_tests hybrid_task_tests_checked

abbrev pub threaded_tests : List (TestCase Call)
threaded_tests =
    hybrid_single_tests ++ hybrid_loop_tests ++ hybrid_section_tests ++ hybrid_task_tests

-- The label of each test of MPIRMA/hybrid but 001, 003, 006, 007 and 009 (processes with two
-- OpenMP threads) holds, in all executions that the ordering rules of MPI and of OpenMP admit: the
-- test can run to its end, every race that it can show is between the two labelled statements, and
-- if a race is announced, one of its kind between these two can be shown, by accesses of the kinds
-- in its ACCESS_SET. The label asks for as many processes as `main` does.
pub threaded_tests-IsRight :
    (t : TestCase Call) → Memᴰ t threaded_tests → IsRight (threaded behaviour) t
threaded_tests-IsRight = mem_either hybrid_single_tests hybrid_single_tests-IsRight (
    mem_either hybrid_loop_tests hybrid_loop_tests-IsRight
      (mem_either hybrid_section_tests hybrid_section_tests-IsRight (hybrid_task_tests-IsRight)))

-- Tests whose ACCESS_SET is not that of their race, with the kinds that are there.
abbrev pub misdescribed_tests : List (TestCase Call × (AccessKind × AccessKind))
misdescribed_tests =
    (master_local_yes, (buffer_write, local_load))
    ∷ (single_local_yes, (buffer_write, local_load))
    ∷ (for_local_yes, (buffer_write, local_load))
    ∷ (section_local_yes, (buffer_write, local_load))
    ∷ (task_local_yes, (buffer_write, local_load))
    ∷ []

misdescribed_tests_checked : all (misdescribed? (threaded behaviour)) misdescribed_tests ≡ true
unfolding all threaded behaviour misdescribed? master_local_yes single_local_yes for_local_yes
    section_local_yes task_local_yes
misdescribed_tests_checked = refl

-- The labels of MPIRMA/hybrid/001, 003, 006, 007 and 009 do not hold: no race of the kind and
-- between the two statements that they name is, in any execution that the ordering rules of MPI
-- and of OpenMP admit, by accesses of the kinds in ACCESS_SET. They would hold with the kinds of
-- the accesses that are there, a one-sided call that writes a buffer of its process and a load.
pub misdescribed_tests-IsMisdescribed :
    (t : TestCase Call) (s : AccessKind × AccessKind)
    → Memᴰ (t, s) misdescribed_tests
    → IsMisdescribed (threaded behaviour) t s
misdescribed_tests-IsMisdescribed =
    misdescribed?-all (threaded behaviour) misdescribed_tests misdescribed_tests_checked

abbrev pub hybrid_tests : List (TestCase Call)
hybrid_tests =
    master_local_yes ∷ master_local_no ∷ single_local_yes ∷ single_local_no ∷ master_remote_yes
    ∷ master_remote_no ∷ single_remote_yes ∷ single_remote_no ∷ ordered_local_no ∷ for_local_yes
    ∷ ordered_remote_no ∷ for_remote_yes ∷ section_local_yes ∷ section_local_no ∷ section_remote_yes
    ∷ section_remote_no ∷ section_barrier_origin_remote_yes ∷ section_sendrecv_origin_remote_yes
    ∷ task_local_yes ∷ task_local_no ∷ task_remote_yes ∷ task_remote_no ∷ []

hybrid_tests_checked : all (well_formed? threaded_library) hybrid_tests ≡ true
unfolding all well_formed? threaded_library master_local_yes master_local_no single_local_yes
    single_local_no master_remote_yes master_remote_no single_remote_yes single_remote_no
    ordered_local_no for_local_yes ordered_remote_no for_remote_yes section_local_yes
    section_local_no section_remote_yes section_remote_no section_barrier_origin_remote_yes
    section_sendrecv_origin_remote_yes task_local_yes task_local_no task_remote_yes task_remote_no
hybrid_tests_checked = refl

-- Each of the tests of MPIRMA/hybrid uses MPI as it must: all its processes make the same
-- collective calls in the same order, between any two of them as many messages are received as are
-- sent, no access leaves the window or the variable that it is to, and in every execution that the
-- ordering rules of MPI and of OpenMP admit each access of a one-sided call at its target is over
-- before any process frees the window.
pub hybrid_tests-IsWellFormed :
    (t : TestCase Call) → Memᴰ t hybrid_tests → IsWellFormed threaded_library t
hybrid_tests-IsWellFormed = well_formed?-all threaded_library hybrid_tests hybrid_tests_checked
