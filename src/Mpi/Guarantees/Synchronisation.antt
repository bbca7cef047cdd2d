-- ===== src/Mpi/Guarantees/Synchronisation.antt =====
-- What orders the processes: collective calls, messages, post and complete, exclusive locks.
use rmarace_bench.Base.{
  ℕ, String, Bool, true, false, Option, none, some, List, [], ◌∷◌, ◌++◌, concat_map, ◌==◌, str_eq,
  if◌then◌else◌, any,
}
use rmarace_bench.Race.Execution.{Edge}
use rmarace_bench.Trace.{Trace, picked, steps_of, next_after, before, after, turn, signals}
use rmarace_bench.Mpi.Call.{Call}

-- A process leaves such a call only after all have entered it.
joins : Call → Option String
joins Call.barrier = some "MPI_Barrier"
joins (Call.win_fence _ w) = some "MPI_Win_fence"
joins (Call.win_free w) = some "MPI_Win_free"
joins _ = none

unfoldable pub fences : String → Call → Bool
fences win (Call.win_fence _ w) = str_eq w win
fences win _ = false

fences_any : Call → Bool
fences_any (Call.win_fence _ _) = true
fences_any _ = false

-- Within its fence a process ends the exposure of its window and begins the next one, after all
-- have entered the fence: what was issued before it has been done at the target, and what is issued
-- after it has not begun.
unfoldable pub turns : ℕ → Trace Call → List Edge
unfolding steps_of fences_any
turns r t =
    concat_map
      (λ k.
        record { earlier = before r k; later = turn r k 0 }
        ∷ record { earlier = turn r k 0; later = after r k }
        ∷ [])
      (steps_of fences_any t)

entered : String → ℕ → ℕ → ℕ → ℕ → List Edge
entered c r k s j =
    if str_eq c "MPI_Win_fence"
    then record { earlier = before r k; later = turn s j 0 }
      ∷ record { earlier = before s j; later = turn r k 0 }
      ∷ []
    else []

-- Collective calls are matched in order.
meet : ℕ → ℕ → List (ℕ × String) → List (ℕ × String) → List Edge
unfolding entered
meet r s ((k, c) ∷ xs) ((j, d) ∷ ys) =
    let rest = meet r s xs ys in
    if str_eq c d then signals r k s j ∷ signals s j r k ∷ (entered c r k s j ++ rest) else []
meet r s _ _ = []

unfoldable pub sends_to : ℕ → Call → Bool
sends_to s (Call.send _ _ _ peer _) = peer == s
sends_to s _ = false

unfoldable pub receives_from : ℕ → Call → Bool
receives_from r (Call.recv _ _ _ peer _) = peer == r
receives_from r _ = false

-- The tests use one tag and one communicator: messages between two processes arrive in order.
deliver : ℕ → ℕ → List ℕ → List ℕ → List Edge
deliver r s (k ∷ xs) (j ∷ ys) = signals r k s j ∷ deliver r s xs ys
deliver r s _ _ = []

in_group : ℕ → List ℕ → Bool
unfolding any
in_group r g = any (λ x. x == r) g

unfoldable pub exposes_to : ℕ → Call → Bool
unfolding in_group
exposes_to s (Call.win_post g _ _) = in_group s g
exposes_to s _ = false

unfoldable pub starts_at : ℕ → Call → Bool
unfolding in_group
starts_at r (Call.win_start g _ _) = in_group r g
starts_at r _ = false

unfoldable pub completes : Call → Bool
completes (Call.win_complete _) = true
completes _ = false

unfoldable pub waits : Call → Bool
waits (Call.win_wait _) = true
waits _ = false

-- MPI_Win_wait of the target returns after MPI_Win_complete of each origin.
finish : ℕ → ℕ → List ℕ → List ℕ → List ℕ → List ℕ → List Edge
unfolding next_after
finish r s (p ∷ posts) waiting (b ∷ starts) completing =
    let rest = finish r s posts waiting starts completing in
    elim (next_after p waiting) [
      | none ↦ rest
      | some w ↦ elim (next_after b completing) [ none ↦ rest | some c ↦ signals s c r w ∷ rest ]
    ]
finish r s _ _ _ _ = []

module _ (r : ℕ) (here : Trace Call) (s : ℕ) (there : Trace Call) where
  -- both ways between two processes
  unfoldable pub synchronise : List Edge
  unfolding picked joins meet steps_of sends_to receives_from deliver finish exposes_to starts_at
      completes waits
  synchronise =
      meet r s (picked joins here) (picked joins there)
      ++ deliver r s (steps_of (sends_to s) here) (steps_of (receives_from r) there)
      ++ deliver s r (steps_of (sends_to r) there) (steps_of (receives_from s) here)
      ++ finish r s (steps_of (exposes_to s) here) (steps_of waits here)
          (steps_of (starts_at r) there) (steps_of completes there)
      ++ finish s r (steps_of (exposes_to r) there) (steps_of waits there)
          (steps_of (starts_at s) here) (steps_of completes here)
