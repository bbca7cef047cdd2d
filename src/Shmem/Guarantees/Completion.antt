-- ===== src/Shmem/Guarantees/Completion.antt =====
-- When the accesses of a transfer can begin, and by when they are finished; and what orders the
-- processes.
use rmarace_bench.Base.{
  ℕ, ◌+◌, ◌*◌, String, Bool, true, false, Option, none, some, List, [], ◌∷◌, ◌++◌, map, concat_map,
  ltb, ◌||◌, str_eq, if◌then◌else◌, select,
}
use rmarace_bench.Race.Access.{Point}
use rmarace_bench.Race.Execution.{Edge}
use rmarace_bench.Trace.{Trace, picked, steps_of, next_after, before, after, turn, signals}
use rmarace_bench.Shmem.Call.{Call}
use rmarace_bench.Shmem.Guarantees.Calls.{Transfer, completes}

abbrev list_of : Option ℕ → List ℕ
list_of none = []
list_of (some k) = k ∷ []

is_fence : Call → Bool
is_fence Call.fence = true
is_fence _ = false

-- What a fence of process `r` at step `k` separates at a target.
abbrev between : ℕ → ℕ → ℕ → Point
between r k pe = record { rank = 100_000 * (pe + 1) + 1000 * (r + 1) + k; step = 0 }

unfoldable pub arrival : ℕ → ℕ → Point
arrival r k = turn r k 1

-- A transfer that process `r` issues at step `k`.
module _ (x : Transfer) (r k : ℕ) (t : Trace Call) where
  -- a point within the next call that completes it
  completed : List Point
  unfolding steps_of next_after completes
  completed = map (λ j. turn r j 0) (list_of (next_after k (steps_of (completes x.context) t)))

  fenced_off : List Point
  unfolding steps_of next_after is_fence
  fenced_off =
      if x.stores
      then map (λ j. between r j x.pe) (list_of (next_after k (steps_of is_fence t)))
      else []

  fenced_in : List Point
  unfolding steps_of is_fence
  fenced_in =
      if x.stores
      then map (λ j. between r j x.pe) (select (λ j. ltb j k) (steps_of is_fence t))
      else []

  -- the arrival of its signal, before which its data has arrived
  arrived : List Point
  unfolding arrival
  arrived = elim x.signals [ none ↦ [] | some _ ↦ arrival r k ∷ [] ]

  -- Its signal arrives after what a fence has put before it.
  unfoldable pub arrives : List Edge
  unfolding fenced_in arrived
  arrives =
      concat_map (λ p. map (λ q. record { earlier = p; later = q }) arrived)
        (before r k ∷ fenced_in)

  unfoldable pub origin_ends : List Point
  unfolding completed arrived
  origin_ends = if x.returns_early then completed ++ arrived else after r k ∷ []

  unfoldable pub target_begins : List Point
  unfolding fenced_in
  target_begins = before r k ∷ fenced_in

  unfoldable pub target_ends : List Point
  unfolding completed fenced_off arrived
  target_ends = if x.lags then completed ++ fenced_off ++ arrived else after r k ∷ []

-- A process leaves such a call only after all have entered it, and completed what it completes.
joins : Call → Option String
joins Call.barrier_all = some "shmem_barrier_all"
joins Call.sync = some "shmem_sync"
joins Call.sync_all = some "shmem_sync_all"
joins Call.finalize = some "shmem_finalize"
joins _ = none

completes_any : Call → Bool
completes_any (Call.ctx_quiet _) = true
completes_any c = completes none c

-- A completing call has a moment at which the transfers are complete.
unfoldable pub completions : ℕ → Trace Call → List Edge
unfolding completes_any completes steps_of
completions r t =
    concat_map
      (λ k.
        record { earlier = before r k; later = turn r k 0 }
        ∷ record { earlier = turn r k 0; later = after r k }
        ∷ [])
      (steps_of completes_any t)

-- Each process enters, completes unless the call only synchronises, and then lets the other leave.
lets_go : String → ℕ → ℕ → ℕ → ℕ → List Edge
lets_go c r k s j =
    if str_eq c "shmem_sync" || str_eq c "shmem_sync_all"
    then signals r k s j ∷ signals s j r k ∷ []
    else record { earlier = turn r k 0; later = after s j }
      ∷ record { earlier = turn s j 0; later = after r k }
      ∷ []

-- Collective calls are matched in order.
meet : ℕ → ℕ → List (ℕ × String) → List (ℕ × String) → List Edge
unfolding lets_go
meet r s ((k, c) ∷ xs) ((j, d) ∷ ys) =
    let rest = meet r s xs ys in if str_eq c d then lets_go c r k s j ++ rest else []
meet r s _ _ = []

-- both ways between two processes
unfoldable pub synchronise : ℕ → Trace Call → ℕ → Trace Call → List Edge
unfolding picked joins meet
synchronise r here s there = meet r s (picked joins here) (picked joins there)
