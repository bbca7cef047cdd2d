-- ===== src/Gaspi/Guarantees/Completion.antt =====
-- By when the accesses of a transfer are finished, and what orders the processes.
use rmarace_bench.Base.{
  ℕ, String, Bool, true, false, ◌&&◌, ◌==◌, Option, none, some, List, [], ◌∷◌, ◌++◌, map, leb,
  str_eq, if◌then◌else◌, select,
}
use rmarace_bench.Race.Access.{Point}
use rmarace_bench.Race.Execution.{Edge}
use rmarace_bench.Trace.{Trace, picked, steps_of, next_after, after, signals}
use rmarace_bench.Gaspi.Call.{Call}
use rmarace_bench.Gaspi.Guarantees.Calls.{Transfer, waits_for_queue}
use rmarace_bench.Gaspi.Guarantees.Notifications.{Post, arrival}

abbrev list_of : Option ℕ → List ℕ
list_of none = []
list_of (some k) = k ∷ []

-- A transfer that process `r` issues at step `k`.
module _ (x : Transfer) (r k : ℕ) (t : Trace Call) (posts : List Post) where
  -- the next gaspi_wait for its queue
  waited : ℕ → List Point
  unfolding steps_of next_after waits_for_queue
  waited q = map (λ j. after r j) (list_of (next_after k (steps_of (waits_for_queue q) t)))

  -- A notification does not overtake the writes to its target that its process has put into the
  -- same queue before it, or with it; that of a read only announces this read.
  covers : ℕ → Post → Bool
  covers q p =
      if x.is_write
      then p.rank == r && leb k p.step && p.what.to == x.rank && p.what.queue == q
      else p.rank == r && k == p.step

  covered : ℕ → List Point
  unfolding covers
  covered q = map arrival (select (covers q) posts)

  ends_on : Option ℕ → Bool → List Point
  unfolding waited covered
  ends_on none at_target = after r k ∷ []
  ends_on (some q) at_target = if x.is_write && at_target then covered q else waited q ++ covered q

  -- gaspi_wait is enough for the buffers of the process itself, and for what a read takes from its
  -- target. What a write has brought to its target is also read from its source.
  unfoldable pub origin_ends : List Point
  unfolding ends_on
  origin_ends = ends_on x.queue false

  unfoldable pub target_ends : List Point
  unfolding ends_on
  target_ends = ends_on x.queue true

-- A process leaves such a call only after all have entered it.
joins : Call → Option String
joins Call.barrier = some "gaspi_barrier"
joins (Call.allreduce _ _ _ _) = some "gaspi_allreduce"
joins _ = none

-- Collective calls are matched in order.
meet : ℕ → ℕ → List (ℕ × String) → List (ℕ × String) → List Edge
meet r s ((k, c) ∷ xs) ((j, d) ∷ ys) =
    let rest = meet r s xs ys in if str_eq c d then signals r k s j ∷ signals s j r k ∷ rest else []
meet r s _ _ = []

-- both ways between two processes
unfoldable pub synchronise : ℕ → Trace Call → ℕ → Trace Call → List Edge
unfolding picked joins meet
synchronise r here s there = meet r s (picked joins here) (picked joins there)
