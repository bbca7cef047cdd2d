-- ===== src/Mpi/Guarantees/Completion.antt =====
-- When the accesses of a one-sided call can begin, and by when they are finished.
use rmarace_bench.Base.{
  ℕ, ◌-◌, Bool, true, false, Option, none, some, List, [], ◌∷◌, ◌++◌, map, ◌==◌, leb, if◌then◌else◌,
  select, length, get_elem?,
}
use rmarace_bench.Race.Access.{Point, Mode, read}
use rmarace_bench.Mpi.Call.{Call}
use rmarace_bench.Mpi.Guarantees.Calls.{Rma, closes_target, closes_origin}
use rmarace_bench.Mpi.Guarantees.Locks.{Epoch, epoch_at, granted, released}
use rmarace_bench.Mpi.Guarantees.Synchronisation.{fences, exposes_to, starts_at, waits}
use rmarace_bench.Trace.{Trace, steps_of, next_after, before, after, turn}

abbrev pub list_of {ℓ} : {A : Type ℓ} → Option A → List A
list_of none = []
list_of (some a) = a ∷ []

abbrev pub up_to : ℕ → List ℕ → ℕ
up_to k js = length (select (λ j. leb j k) js)

is_read : Mode → Bool
is_read read = true
is_read _ = false

-- An operation `o` that process `r` issues at step `k`, with the traces of origin and target.
module _ (o : Rma) (r k : ℕ) (here there : Trace Call) (epochs : List Epoch) where
  first_after : (Call → Bool) → List Point
  unfolding steps_of next_after
  first_after p = map (after r) (list_of (next_after k (steps_of p here)))

  fences_passed : ℕ
  unfolding steps_of fences
  fences_passed = up_to k (steps_of (fences o.win) here)

  -- the turn in the n-th fence of the target
  turn_there : ℕ → List Point
  unfolding steps_of fences
  turn_there n =
      map (λ j. turn o.target j 0) (list_of (get_elem? (steps_of (fences o.win) there) n))

  fence_there : List Point
  unfolding turn_there fences_passed
  fence_there = turn_there fences_passed

  fence_before : List Point
  unfolding turn_there fences_passed
  fence_before = if fences_passed == 0 then [] else turn_there (fences_passed - 1)

  starts_before : ℕ
  unfolding steps_of starts_at
  starts_before = up_to k (steps_of (starts_at o.target) here)

  -- the MPI_Win_post of the target for the access epoch that the operation is in
  post_there : List ℕ
  unfolding steps_of exposes_to starts_before
  post_there =
      if starts_before == 0
      then []
      else list_of (get_elem? (steps_of (exposes_to r) there) (starts_before - 1))

  wait_there : List Point
  unfolding post_there next_after steps_of waits
  wait_there = elim post_there [
    | [] ↦ []
    | p ∷ _ ↦ map (after o.target) (list_of (next_after p (steps_of waits there)))
  ]

  unfoldable pub origin_ends : List Point
  unfolding first_after closes_origin closes_target
  origin_ends = first_after (closes_origin o) ++ first_after (closes_target o)

  unfoldable pub target_begins : List Point
  unfolding post_there epoch_at fence_before
  target_begins =
      before r k ∷ fence_before
      ++ map (before o.target) post_there
      ++ map granted (epoch_at epochs r k o.target o.win)

  -- What has been read at the target has been read once it is at the origin.
  unfoldable pub target_ends : List Point
  unfolding first_after closes_target fence_there wait_there epoch_at origin_ends is_read
  target_ends =
      first_after (closes_target o)
      ++ fence_there
      ++ wait_there
      ++ map released (epoch_at epochs r k o.target o.win)
      ++ (if is_read o.at_target then first_after (closes_origin o) else [])
