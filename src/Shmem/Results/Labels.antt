-- ===== src/Shmem/Results/Labels.antt =====
-- Labels under SHMEM that say less or other than what their tests do.
use rmarace_bench.Base.{◌≡◌, refl, true, List, [], ◌∷◌, Memᴰ, all}
use rmarace_bench.Race.Access.{Site}
use rmarace_bench.Race.Label.{
  Label, LabelHolds, NamedRace, remote_race, named_race?, named_race?-NamedRace,
  Race-not_LabelHolds, rma_write, rma_read, local_load, rma_atomic_write,
}
use rmarace_bench.TestCase.{
  TestCase, behaviour_of, racy, pair_of, IsMisnamed, misnamed?, misnamed?-all,
}
use rmarace_bench.Shmem.Call.{Call}
use rmarace_bench.Shmem.Guarantees.{behaviour}
use rmarace_bench.Shmem.Conflict.LocalFetch.{
  atomicfetchnbi_store_local_yes, atomicfetchnbi_load_local_yes,
  atomiccompareswapnbi_load_local_yes, atomiccompareswapnbi_store_local_yes,
}
use rmarace_bench.Shmem.Conflict.FetchTarget.{
  atomicfetchnbi_store_remote_yes, atomiccompareswapnbi_store_remote_yes,
}
use rmarace_bench.Shmem.Sync.Quiet.{barrierall_local_yes, quiet_local_yes}
use rmarace_bench.Shmem.Sync.Order.{fence_getnbi_put_remote_yes}
use rmarace_bench.Shmem.Atomic.{
  same_ctx_remote_no, same_domain_remote_no, double_long_remote_yes, int_long_remote_yes,
  int_float_remote_yes, int_float_sameorigin_remote_yes,
}
use rmarace_bench.Shmem.Sync.Context.{ctx_remote_no, ctx_remote_yes}

-- Tests whose label names another call than the one in the line, with the pair that is there.
abbrev pub misnamed_tests : List (TestCase Call × (Site × Site))
misnamed_tests =
    (atomicfetchnbi_store_local_yes, pair_of "shmem_int_atomic_fetch_nbi" 41 "STORE" 43)
    ∷ (atomicfetchnbi_load_local_yes, pair_of "shmem_int_atomic_fetch_nbi" 41 "LOAD" 43)
    ∷ (
      atomiccompareswapnbi_load_local_yes,
      pair_of "shmem_int_atomic_compare_swap_nbi" 41 "LOAD" 43,
    )
    ∷ (
      atomiccompareswapnbi_store_local_yes,
      pair_of "shmem_int_atomic_compare_swap_nbi" 41 "STORE" 43,
    )
    ∷ (atomicfetchnbi_store_remote_yes, pair_of "shmem_int_atomic_fetch_nbi" 41 "STORE" 46)
    ∷ (
      atomiccompareswapnbi_store_remote_yes,
      pair_of "shmem_int_atomic_compare_swap_nbi" 41 "STORE" 46,
    )
    ∷ (barrierall_local_yes, pair_of "shmem_int_get_nbi" 45 "LOAD" 47)
    ∷ (quiet_local_yes, pair_of "shmem_int_get_nbi" 45 "LOAD" 47)
    ∷ (fence_getnbi_put_remote_yes, pair_of "shmem_int_get_nbi" 44 "shmem_int_put" 50)
    ∷ (double_long_remote_yes, pair_of "shmem_double_atomic_set" 44 "shmem_long_atomic_set" 49)
    ∷ (int_long_remote_yes, pair_of "shmem_int_atomic_add" 44 "shmem_long_atomic_add" 49)
    ∷ (int_float_remote_yes, pair_of "shmem_int_atomic_set" 42 "shmem_float_atomic_set" 47)
    ∷ (
      int_float_sameorigin_remote_yes,
      pair_of "shmem_int_atomic_set" 42 "shmem_float_atomic_set" 44,
    )
    ∷ []

misnamed_tests_checked : all (misnamed? behaviour) misnamed_tests ≡ true
unfolding all behaviour misnamed? atomicfetchnbi_store_local_yes atomicfetchnbi_load_local_yes
    atomiccompareswapnbi_load_local_yes atomiccompareswapnbi_store_local_yes
    atomicfetchnbi_store_remote_yes atomiccompareswapnbi_store_remote_yes barrierall_local_yes
    quiet_local_yes fence_getnbi_put_remote_yes double_long_remote_yes int_long_remote_yes
    int_float_remote_yes int_float_sameorigin_remote_yes
misnamed_tests_checked = refl

-- The labels of SHMEM/conflict/010, 011, 014, 015, 047 and 048, of SHMEM/sync/001, 003 and 012 and
-- of SHMEM/atomic/006 to 009 do not hold: no execution that the ordering rules admit has a race
-- between the two calls that they name, since another call stands in one of the lines. They would
-- hold with the names of the calls that stand there.
pub misnamed_tests-IsMisnamed :
    (t : TestCase Call) (p : Site × Site) → Memᴰ (t, p) misnamed_tests → IsMisnamed behaviour t p
misnamed_tests-IsMisnamed = misnamed?-all behaviour misnamed_tests misnamed_tests_checked

abbrev second_put_print : Label
second_put_print = racy remote_race rma_write local_load "shmem_ctx_int_put" 51 "LOAD" 56 2

ctx_remote_no_checked : named_race? second_put_print (behaviour_of behaviour ctx_remote_no) ≡ true
unfolding named_race? behaviour behaviour_of ctx_remote_no
ctx_remote_no_checked = refl

-- The label of SHMEM/sync/019, "none", does not hold: the second put in the created context is not
-- completed by the shmem_barrier_all behind it, which completes the default context only, and some
-- execution that the ordering rules admit has a remote race of it in line 51 and the print of
-- `remote` in line 56.
pub ctx_remote_no-label :
    NamedRace second_put_print (behaviour_of behaviour ctx_remote_no)
    × (¬ LabelHolds ctx_remote_no.label (behaviour_of behaviour ctx_remote_no))
unfolding ctx_remote_no
ctx_remote_no-label =
    let found = named_race?-NamedRace _ _ ctx_remote_no_checked in
    let (_, _, race, _) = found in (found, Race-not_LabelHolds refl race)

abbrev first_put_print : Label
first_put_print = racy remote_race rma_write local_load "shmem_ctx_int_put" 48 "LOAD" 57 2

ctx_remote_yes_checked :
    (named_race? ctx_remote_yes.label (behaviour_of behaviour ctx_remote_yes) ≡ true)
    × (named_race? first_put_print (behaviour_of behaviour ctx_remote_yes) ≡ true)
unfolding named_race? behaviour behaviour_of ctx_remote_yes
ctx_remote_yes_checked = (refl, refl)

-- SHMEM/sync/020 can show the race of its label, of the two puts in a created context, and a
-- second one that the label does not name: the first put is not completed by shmem_quiet or
-- shmem_barrier_all, which complete the default context only, and races with the print of `remote`
-- in line 57.
pub ctx_remote_yes-both :
    NamedRace ctx_remote_yes.label (behaviour_of behaviour ctx_remote_yes)
    × NamedRace first_put_print (behaviour_of behaviour ctx_remote_yes)
ctx_remote_yes-both = (
  named_race?-NamedRace _ _ ctx_remote_yes_checked.0,
  named_race?-NamedRace _ _ ctx_remote_yes_checked.1,
)

abbrev also_remote : Label
also_remote = racy remote_race rma_read rma_write "shmem_int_get_nbi" 41 "shmem_int_put_nbi" 43 2

abbrev first_add_print : Label
first_add_print =
    racy remote_race rma_atomic_write local_load "shmem_ctx_int_atomic_add" 44 "LOAD" 55 3

abbrev first_domain_add_print : Label
first_domain_add_print =
    racy remote_race rma_atomic_write local_load "shmem_ctx_int_atomic_add" 45 "LOAD" 56 3

ctx_atomics_checked :
    (named_race? first_add_print (behaviour_of behaviour same_ctx_remote_no) ≡ true)
    × (named_race? first_domain_add_print (behaviour_of behaviour same_domain_remote_no) ≡ true)
unfolding named_race? behaviour behaviour_of same_ctx_remote_no same_domain_remote_no
ctx_atomics_checked = (refl, refl)

-- The labels of SHMEM/atomic/002 and 003, "none", do not hold: the atomic operations in created
-- contexts are not completed by the calls of shmem_barrier_all behind them, which complete the
-- default context only, and some execution that the ordering rules admit has a race of the first
-- one and the last print of `remote`.
pub ctx_atomics-labels :
    (¬ LabelHolds same_ctx_remote_no.label (behaviour_of behaviour same_ctx_remote_no))
    × (¬ LabelHolds same_domain_remote_no.label (behaviour_of behaviour same_domain_remote_no))
    × NamedRace first_add_print (behaviour_of behaviour same_ctx_remote_no)
    × NamedRace first_domain_add_print (behaviour_of behaviour same_domain_remote_no)
unfolding same_ctx_remote_no same_domain_remote_no
ctx_atomics-labels =
    let one = named_race?-NamedRace _ _ ctx_atomics_checked.0 in
    let two = named_race?-NamedRace _ _ ctx_atomics_checked.1 in
    let (_, _, race, _) = one in
    let (_, _, race', _) = two in
    (Race-not_LabelHolds refl race, Race-not_LabelHolds refl race', one, two)
