-- ===== src/Shmem/Results/Conflict.antt =====
-- The labels of the tests of SHMEM/conflict and atomic, and their use of OpenSHMEM.
use rmarace_bench.Base.{◌≡◌, refl, true, ◌++◌, ◌∷◌, [], List, all, Memᴰ, mem_either}
use rmarace_bench.TestCase.{TestCase, IsRight, right?, right?-all}
use rmarace_bench.Shmem.Call.{Call}
use rmarace_bench.Shmem.Guarantees.{behaviour}
use rmarace_bench.Shmem.Library.{shmem_library}
use rmarace_bench.Usage.{IsWellFormed, well_formed?, well_formed?-all}
use rmarace_bench.Shmem.Conflict.LocalBuffer.{
  local_buffer_tests, putnbi_load_local_no, putnbi_store_local_yes, putnbi_putnbi_local_no,
  getnbi_load_local_yes, getnbi_store_local_yes, getnbi_putnbi_local_yes, getnbi_getnbi_local_yes,
  put_signal_nbi_store_local_yes, put_signal_nbi_load_local_no,
}
use rmarace_bench.Shmem.Conflict.LocalFetch.{
  local_fetch_tests, atomicfetchnbi_store_local_yes, atomicfetchnbi_load_local_yes,
  atomicfetchincnbi_store_local_yes, atomicfetchincnbi_load_local_yes,
  atomiccompareswapnbi_load_local_yes, atomiccompareswapnbi_store_local_yes,
}
use rmarace_bench.Shmem.Conflict.GetTarget.{
  get_target_tests, get_load_remote_no, get_get_remote_no, get_store_remote_yes, get_put_remote_yes,
  get_atomicfetch_remote_no, get_atomicset_remote_yes,
}
use rmarace_bench.Shmem.Conflict.PutTarget.{
  put_target_tests, put_load_remote_yes, put_store_remote_yes, put_put_remote_yes,
  put_atomicfetch_remote_yes, put_atomicset_remote_yes,
}
use rmarace_bench.Shmem.Conflict.AtomicTarget.{
  atomic_target_tests, atomicset_load_remote_yes, atomicset_store_remote_yes,
  atomicset_atomicset_remote_no, atomicset_atomicfetch_remote_no, atomicfetch_atomicfetch_remote_no,
  atomicfetch_load_remote_no, atomicfetch_store_remote_yes,
}
use rmarace_bench.Shmem.Conflict.SingleTarget.{
  single_target_tests, put_signal_store_remote_yes, put_signal_put_signal_remote_yes,
  g_store_remote_yes, g_put_remote_yes, p_load_remote_yes, p_get_remote_yes,
}
use rmarace_bench.Shmem.Conflict.StridedTarget.{
  strided_target_tests, iput_store_remote_yes, iput_put_remote_yes, iget_store_remote_yes,
  iget_put_remote_yes,
}
use rmarace_bench.Shmem.Conflict.FetchTarget.{
  fetch_target_tests, atomicfetchnbi_atomicfetchnbi_remote_no, atomicfetchnbi_load_remote_no,
  atomicfetchinc_atomicfetchinc_remote_no, atomicfetchnbi_store_remote_yes,
  atomiccompareswapnbi_store_remote_yes, atomiccompareswapnbi_atomicfetchnbi_remote_no,
}
use rmarace_bench.Shmem.Atomic.{
  atomic_tests, int_int_remote_no, int_int_sameorigin_remote_no, double_long_remote_yes,
  int_long_remote_yes, int_float_remote_yes, int_float_sameorigin_remote_yes,
}

local_buffer_tests_checked : all (right? behaviour) local_buffer_tests ≡ true
unfolding all behaviour right? putnbi_load_local_no putnbi_store_local_yes putnbi_putnbi_local_no
    getnbi_load_local_yes getnbi_store_local_yes getnbi_putnbi_local_yes getnbi_getnbi_local_yes
    put_signal_nbi_store_local_yes put_signal_nbi_load_local_no
local_buffer_tests_checked = refl

local_buffer_tests-IsRight : (t : TestCase Call) → Memᴰ t local_buffer_tests → IsRight behaviour t
local_buffer_tests-IsRight = right?-all behaviour local_buffer_tests local_buffer_tests_checked

local_fetch_tests_checked : all (right? behaviour) local_fetch_tests ≡ true
unfolding all behaviour right? atomicfetchincnbi_store_local_yes atomicfetchincnbi_load_local_yes
local_fetch_tests_checked = refl

local_fetch_tests-IsRight : (t : TestCase Call) → Memᴰ t local_fetch_tests → IsRight behaviour t
local_fetch_tests-IsRight = right?-all behaviour local_fetch_tests local_fetch_tests_checked

abbrev pub local_pairs : List (TestCase Call)
local_pairs = local_buffer_tests ++ local_fetch_tests

-- The label of each test of SHMEM/conflict/001 to 009, 012 and 013 (an operation, and a second use
-- of its local buffer) holds, in all executions that the ordering rules of OpenSHMEM admit: the
-- test can run to its end, every race that it can show is between the two labelled statements, and
-- if a race is announced, one of its kind between these two can be shown, by accesses of the kinds
-- in its ACCESS_SET. The label asks for as many processes as `main` does.
pub local_pairs-IsRight : (t : TestCase Call) → Memᴰ t local_pairs → IsRight behaviour t
local_pairs-IsRight =
    mem_either local_buffer_tests local_buffer_tests-IsRight local_fetch_tests-IsRight

get_target_tests_checked : all (right? behaviour) get_target_tests ≡ true
unfolding all behaviour right? get_load_remote_no get_get_remote_no get_store_remote_yes
    get_put_remote_yes get_atomicfetch_remote_no get_atomicset_remote_yes
get_target_tests_checked = refl

get_target_tests-IsRight : (t : TestCase Call) → Memᴰ t get_target_tests → IsRight behaviour t
get_target_tests-IsRight = right?-all behaviour get_target_tests get_target_tests_checked

put_target_tests_checked : all (right? behaviour) put_target_tests ≡ true
unfolding all behaviour right? put_load_remote_yes put_store_remote_yes put_put_remote_yes
    put_atomicfetch_remote_yes put_atomicset_remote_yes
put_target_tests_checked = refl

put_target_tests-IsRight : (t : TestCase Call) → Memᴰ t put_target_tests → IsRight behaviour t
put_target_tests-IsRight = right?-all behaviour put_target_tests put_target_tests_checked

atomic_target_tests_checked : all (right? behaviour) atomic_target_tests ≡ true
unfolding all behaviour right? atomicset_load_remote_yes atomicset_store_remote_yes
    atomicset_atomicset_remote_no atomicset_atomicfetch_remote_no atomicfetch_atomicfetch_remote_no
    atomicfetch_load_remote_no atomicfetch_store_remote_yes
atomic_target_tests_checked = refl

atomic_target_tests-IsRight : (t : TestCase Call) → Memᴰ t atomic_target_tests → IsRight behaviour t
atomic_target_tests-IsRight = right?-all behaviour atomic_target_tests atomic_target_tests_checked

single_target_tests_checked : all (right? behaviour) single_target_tests ≡ true
unfolding all behaviour right? put_signal_store_remote_yes put_signal_put_signal_remote_yes
    g_store_remote_yes g_put_remote_yes p_load_remote_yes p_get_remote_yes
single_target_tests_checked = refl

single_target_tests-IsRight : (t : TestCase Call) → Memᴰ t single_target_tests → IsRight behaviour t
single_target_tests-IsRight = right?-all behaviour single_target_tests single_target_tests_checked

strided_target_tests_checked : all (right? behaviour) strided_target_tests ≡ true
unfolding all behaviour right? iput_store_remote_yes iput_put_remote_yes iget_store_remote_yes
    iget_put_remote_yes
strided_target_tests_checked = refl

strided_target_tests-IsRight :
    (t : TestCase Call) → Memᴰ t strided_target_tests → IsRight behaviour t
strided_target_tests-IsRight =
    right?-all behaviour strided_target_tests strided_target_tests_checked

fetch_target_tests_checked : all (right? behaviour) fetch_target_tests ≡ true
unfolding all behaviour right? atomicfetchnbi_atomicfetchnbi_remote_no atomicfetchnbi_load_remote_no
    atomicfetchinc_atomicfetchinc_remote_no atomiccompareswapnbi_atomicfetchnbi_remote_no
fetch_target_tests_checked = refl

fetch_target_tests-IsRight : (t : TestCase Call) → Memᴰ t fetch_target_tests → IsRight behaviour t
fetch_target_tests-IsRight = right?-all behaviour fetch_target_tests fetch_target_tests_checked

atomic_tests_checked : all (right? behaviour) atomic_tests ≡ true
unfolding all behaviour right? int_int_remote_no int_int_sameorigin_remote_no
atomic_tests_checked = refl

atomic_tests-IsRight : (t : TestCase Call) → Memᴰ t atomic_tests → IsRight behaviour t
atomic_tests-IsRight = right?-all behaviour atomic_tests atomic_tests_checked

abbrev pub target_pairs : List (TestCase Call)
target_pairs =
    get_target_tests ++ put_target_tests ++ atomic_target_tests ++ single_target_tests
    ++ strided_target_tests ++ fetch_target_tests ++ atomic_tests

-- The label of each test of SHMEM/conflict/016 to 046 and 049 and SHMEM/atomic/004 and 005 (an
-- operation, and a second access to its target) holds, in all executions that the ordering rules
-- of OpenSHMEM admit: the test can run to its end, every race that it can show is between the two
-- labelled statements, and if a race is announced, one of its kind between these two can be shown,
-- by accesses of the kinds in its ACCESS_SET. The label asks for as many processes as `main` does.
pub target_pairs-IsRight : (t : TestCase Call) → Memᴰ t target_pairs → IsRight behaviour t
target_pairs-IsRight = mem_either get_target_tests get_target_tests-IsRight (
    mem_either put_target_tests put_target_tests-IsRight (
      mem_either atomic_target_tests atomic_target_tests-IsRight (
        mem_either single_target_tests single_target_tests-IsRight (
          mem_either strided_target_tests strided_target_tests-IsRight
            (mem_either fetch_target_tests fetch_target_tests-IsRight atomic_tests-IsRight)))))

abbrev pub conflict_programs : List (TestCase Call)
conflict_programs =
    putnbi_load_local_no ∷ putnbi_store_local_yes ∷ putnbi_putnbi_local_no ∷ getnbi_load_local_yes
    ∷ getnbi_store_local_yes ∷ getnbi_putnbi_local_yes ∷ getnbi_getnbi_local_yes
    ∷ put_signal_nbi_store_local_yes ∷ put_signal_nbi_load_local_no ∷ atomicfetchnbi_store_local_yes
    ∷ atomicfetchnbi_load_local_yes ∷ atomicfetchincnbi_store_local_yes
    ∷ atomicfetchincnbi_load_local_yes ∷ atomiccompareswapnbi_load_local_yes
    ∷ atomiccompareswapnbi_store_local_yes ∷ get_load_remote_no ∷ get_get_remote_no
    ∷ get_store_remote_yes ∷ get_put_remote_yes ∷ get_atomicfetch_remote_no
    ∷ get_atomicset_remote_yes ∷ put_load_remote_yes ∷ put_store_remote_yes ∷ put_put_remote_yes
    ∷ put_atomicfetch_remote_yes ∷ put_atomicset_remote_yes ∷ atomicset_load_remote_yes
    ∷ atomicset_store_remote_yes ∷ atomicset_atomicset_remote_no ∷ atomicset_atomicfetch_remote_no
    ∷ atomicfetch_atomicfetch_remote_no ∷ atomicfetch_load_remote_no ∷ atomicfetch_store_remote_yes
    ∷ put_signal_store_remote_yes ∷ put_signal_put_signal_remote_yes ∷ g_store_remote_yes
    ∷ g_put_remote_yes ∷ p_load_remote_yes ∷ p_get_remote_yes ∷ iput_store_remote_yes
    ∷ iput_put_remote_yes ∷ iget_store_remote_yes ∷ iget_put_remote_yes
    ∷ atomicfetchnbi_atomicfetchnbi_remote_no ∷ atomicfetchnbi_load_remote_no
    ∷ atomicfetchinc_atomicfetchinc_remote_no ∷ atomicfetchnbi_store_remote_yes
    ∷ atomiccompareswapnbi_store_remote_yes ∷ atomiccompareswapnbi_atomicfetchnbi_remote_no
    ∷ int_int_remote_no ∷ int_int_sameorigin_remote_no ∷ double_long_remote_yes
    ∷ int_long_remote_yes ∷ int_float_remote_yes ∷ int_float_sameorigin_remote_yes ∷ []

conflict_programs_usage : all (well_formed? shmem_library) conflict_programs ≡ true
unfolding all well_formed? shmem_library putnbi_load_local_no putnbi_store_local_yes
    putnbi_putnbi_local_no getnbi_load_local_yes getnbi_store_local_yes getnbi_putnbi_local_yes
    getnbi_getnbi_local_yes put_signal_nbi_store_local_yes put_signal_nbi_load_local_no
    atomicfetchnbi_store_local_yes atomicfetchnbi_load_local_yes atomicfetchincnbi_store_local_yes
    atomicfetchincnbi_load_local_yes atomiccompareswapnbi_load_local_yes
    atomiccompareswapnbi_store_local_yes get_load_remote_no get_get_remote_no get_store_remote_yes
    get_put_remote_yes get_atomicfetch_remote_no get_atomicset_remote_yes put_load_remote_yes
    put_store_remote_yes put_put_remote_yes put_atomicfetch_remote_yes put_atomicset_remote_yes
    atomicset_load_remote_yes atomicset_store_remote_yes atomicset_atomicset_remote_no
    atomicset_atomicfetch_remote_no atomicfetch_atomicfetch_remote_no atomicfetch_load_remote_no
    atomicfetch_store_remote_yes put_signal_store_remote_yes put_signal_put_signal_remote_yes
    g_store_remote_yes g_put_remote_yes p_load_remote_yes p_get_remote_yes iput_store_remote_yes
    iput_put_remote_yes iget_store_remote_yes iget_put_remote_yes
    atomicfetchnbi_atomicfetchnbi_remote_no atomicfetchnbi_load_remote_no
    atomicfetchinc_atomicfetchinc_remote_no atomicfetchnbi_store_remote_yes
    atomiccompareswapnbi_store_remote_yes atomiccompareswapnbi_atomicfetchnbi_remote_no
    int_int_remote_no int_int_sameorigin_remote_no double_long_remote_yes int_long_remote_yes
    int_float_remote_yes int_float_sameorigin_remote_yes
conflict_programs_usage = refl

pub conflict_programs-IsWellFormed :
    (t : TestCase Call) → Memᴰ t conflict_programs → IsWellFormed shmem_library t
conflict_programs-IsWellFormed =
    well_formed?-all shmem_library conflict_programs conflict_programs_usage
