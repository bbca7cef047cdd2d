-- ===== src/Mpi/Results/Conflict.antt =====
-- The labels of the tests of MPIRMA/conflict and atomic, and their use of MPI.
use rmarace_bench.Base.{◌≡◌, refl, true, ◌++◌, ◌∷◌, [], List, all, Memᴰ, mem_either}
use rmarace_bench.TestCase.{TestCase, IsRight, right?, right?-all}
use rmarace_bench.Mpi.Call.{Call}
use rmarace_bench.Mpi.Guarantees.{behaviour}
use rmarace_bench.Mpi.Library.{mpi_library}
use rmarace_bench.Usage.{IsWellFormed, well_formed?, well_formed?-all}
use rmarace_bench.Mpi.Conflict.Local.{
  local_tests, put_load_local_no, put_store_local_yes, put_put_local_no, get_load_local_yes,
  get_store_local_yes, get_put_local_yes, get_get_local_yes,
}
use rmarace_bench.Mpi.Conflict.LocalAtomic.{
  local_atomic_tests, acc_store_local_yes, acc_load_local_no, gacc_store_local_yes,
  gacc_load_local_yes, fop_store_local_yes, fop_load_local_yes, cas_store_local_yes,
  cas_load_local_yes,
}
use rmarace_bench.Mpi.Conflict.GetRemote.{
  get_remote_tests, get_load_remote_no, get_get_remote_no, get_store_remote_yes, get_put_remote_yes,
  get_gaccread_remote_no, get_acc_remote_yes,
}
use rmarace_bench.Mpi.Conflict.PutRemote.{
  put_remote_tests, put_load_remote_yes, put_store_remote_yes, put_put_remote_yes,
  put_gaccread_remote_yes, put_acc_remote_yes,
}
use rmarace_bench.Mpi.Conflict.AtomicRemote.{
  atomic_remote_tests, acc_load_remote_yes, acc_store_remote_yes, acc_acc_remote_no,
  acc_gaccread_remote_no, gaccread_gaccread_remote_no, gaccread_load_remote_no,
  gaccread_store_remote_yes, gacc_store_remote_yes, gacc_gacc_remote_no, fop_fop_remote_no,
  fop_store_remote_yes, cas_store_remote_yes, cas_cas_remote_no,
}
use rmarace_bench.Mpi.Atomic.{
  atomic_tests, customdatatype_remote_no, customdatatype_remote_yes, disp_remote_yes,
  disp_remote_no, short_int_remote_yes, float_int_remote_yes, float_int_sameorigin_remote_yes,
  double_float_remote_yes, int_int_remote_no, int_int_sameorigin_remote_no,
}

local_tests_checked : all (right? behaviour) local_tests ≡ true
unfolding all behaviour right? put_load_local_no put_store_local_yes put_put_local_no
    get_load_local_yes get_store_local_yes get_put_local_yes get_get_local_yes
local_tests_checked = refl

local_tests-IsRight : (t : TestCase Call) → Memᴰ t local_tests → IsRight behaviour t
local_tests-IsRight = right?-all behaviour local_tests local_tests_checked

local_atomic_tests_checked : all (right? behaviour) local_atomic_tests ≡ true
unfolding all behaviour right? acc_store_local_yes acc_load_local_no gacc_store_local_yes
    gacc_load_local_yes fop_store_local_yes fop_load_local_yes cas_store_local_yes
    cas_load_local_yes
local_atomic_tests_checked = refl

local_atomic_tests-IsRight : (t : TestCase Call) → Memᴰ t local_atomic_tests → IsRight behaviour t
local_atomic_tests-IsRight = right?-all behaviour local_atomic_tests local_atomic_tests_checked

abbrev pub local_conflicts : List (TestCase Call)
local_conflicts = local_tests ++ local_atomic_tests

-- The label of each test of MPIRMA/conflict/001 to 015 (an operation, and a second use of its
-- local buffer) holds, in all executions that the ordering rules of MPI admit: the test can run to
-- its end, every race that it can show is between the two labelled statements, and if a race is
-- announced, one of its kind between these two can be shown, by accesses of the kinds in its
-- ACCESS_SET. The label asks for as many processes as `main` does.
pub local_conflicts-IsRight : (t : TestCase Call) → Memᴰ t local_conflicts → IsRight behaviour t
local_conflicts-IsRight = mem_either local_tests local_tests-IsRight local_atomic_tests-IsRight

get_remote_tests_checked : all (right? behaviour) get_remote_tests ≡ true
unfolding all behaviour right? get_load_remote_no get_get_remote_no get_store_remote_yes
    get_put_remote_yes get_gaccread_remote_no get_acc_remote_yes
get_remote_tests_checked = refl

get_remote_tests-IsRight : (t : TestCase Call) → Memᴰ t get_remote_tests → IsRight behaviour t
get_remote_tests-IsRight = right?-all behaviour get_remote_tests get_remote_tests_checked

put_remote_tests_checked : all (right? behaviour) put_remote_tests ≡ true
unfolding all behaviour right? put_load_remote_yes put_store_remote_yes put_put_remote_yes
    put_gaccread_remote_yes put_acc_remote_yes
put_remote_tests_checked = refl

put_remote_tests-IsRight : (t : TestCase Call) → Memᴰ t put_remote_tests → IsRight behaviour t
put_remote_tests-IsRight = right?-all behaviour put_remote_tests put_remote_tests_checked

atomic_remote_tests_checked : all (right? behaviour) atomic_remote_tests ≡ true
unfolding all behaviour right? acc_load_remote_yes acc_store_remote_yes acc_acc_remote_no
    acc_gaccread_remote_no gaccread_gaccread_remote_no gaccread_load_remote_no
    gaccread_store_remote_yes gacc_store_remote_yes gacc_gacc_remote_no fop_fop_remote_no
    fop_store_remote_yes cas_store_remote_yes cas_cas_remote_no
atomic_remote_tests_checked = refl

atomic_remote_tests-IsRight : (t : TestCase Call) → Memᴰ t atomic_remote_tests → IsRight behaviour t
atomic_remote_tests-IsRight = right?-all behaviour atomic_remote_tests atomic_remote_tests_checked

atomic_tests_checked : all (right? behaviour) atomic_tests ≡ true
unfolding all behaviour right? customdatatype_remote_no customdatatype_remote_yes disp_remote_yes
    disp_remote_no short_int_remote_yes float_int_remote_yes float_int_sameorigin_remote_yes
    double_float_remote_yes int_int_remote_no int_int_sameorigin_remote_no
atomic_tests_checked = refl

atomic_tests-IsRight : (t : TestCase Call) → Memᴰ t atomic_tests → IsRight behaviour t
atomic_tests-IsRight = right?-all behaviour atomic_tests atomic_tests_checked

abbrev pub target_conflicts : List (TestCase Call)
target_conflicts = get_remote_tests ++ put_remote_tests ++ atomic_remote_tests ++ atomic_tests

-- The label of each test of MPIRMA/conflict/016 to 039 and MPIRMA/atomic (an operation, and a
-- second access to its target) holds, in all executions that the ordering rules of MPI admit: the
-- test can run to its end, every race that it can show is between the two labelled statements, and
-- if a race is announced, one of its kind between these two can be shown, by accesses of the kinds
-- in its ACCESS_SET. The label asks for as many processes as `main` does.
pub target_conflicts-IsRight : (t : TestCase Call) → Memᴰ t target_conflicts → IsRight behaviour t
target_conflicts-IsRight = mem_either get_remote_tests get_remote_tests-IsRight (
    mem_either put_remote_tests put_remote_tests-IsRight
      (mem_either atomic_remote_tests atomic_remote_tests-IsRight atomic_tests-IsRight))

abbrev pub conflict_tests : List (TestCase Call)
conflict_tests =
    put_load_local_no ∷ put_store_local_yes ∷ put_put_local_no ∷ get_load_local_yes
    ∷ get_store_local_yes ∷ get_put_local_yes ∷ get_get_local_yes ∷ acc_store_local_yes
    ∷ acc_load_local_no ∷ gacc_store_local_yes ∷ gacc_load_local_yes ∷ fop_store_local_yes
    ∷ fop_load_local_yes ∷ cas_store_local_yes ∷ cas_load_local_yes ∷ get_load_remote_no
    ∷ get_get_remote_no ∷ get_store_remote_yes ∷ get_put_remote_yes ∷ get_gaccread_remote_no
    ∷ get_acc_remote_yes ∷ put_load_remote_yes ∷ put_store_remote_yes ∷ put_put_remote_yes
    ∷ put_gaccread_remote_yes ∷ put_acc_remote_yes ∷ acc_load_remote_yes ∷ acc_store_remote_yes
    ∷ acc_acc_remote_no ∷ acc_gaccread_remote_no ∷ gaccread_gaccread_remote_no
    ∷ gaccread_load_remote_no ∷ gaccread_store_remote_yes ∷ gacc_store_remote_yes
    ∷ gacc_gacc_remote_no ∷ fop_fop_remote_no ∷ fop_store_remote_yes ∷ cas_store_remote_yes
    ∷ cas_cas_remote_no ∷ []

conflict_tests_usage : all (well_formed? mpi_library) conflict_tests ≡ true
unfolding all well_formed? mpi_library put_load_local_no put_store_local_yes put_put_local_no
    get_load_local_yes get_store_local_yes get_put_local_yes get_get_local_yes acc_store_local_yes
    acc_load_local_no gacc_store_local_yes gacc_load_local_yes fop_store_local_yes
    fop_load_local_yes cas_store_local_yes cas_load_local_yes get_load_remote_no get_get_remote_no
    get_store_remote_yes get_put_remote_yes get_gaccread_remote_no get_acc_remote_yes
    put_load_remote_yes put_store_remote_yes put_put_remote_yes put_gaccread_remote_yes
    put_acc_remote_yes acc_load_remote_yes acc_store_remote_yes acc_acc_remote_no
    acc_gaccread_remote_no gaccread_gaccread_remote_no gaccread_load_remote_no
    gaccread_store_remote_yes gacc_store_remote_yes gacc_gacc_remote_no fop_fop_remote_no
    fop_store_remote_yes cas_store_remote_yes cas_cas_remote_no
conflict_tests_usage = refl

pub conflict_tests-IsWellFormed :
    (t : TestCase Call) → Memᴰ t conflict_tests → IsWellFormed mpi_library t
conflict_tests-IsWellFormed = well_formed?-all mpi_library conflict_tests conflict_tests_usage
