-- ===== src/Shmem/Guarantees/Locks.antt =====
-- shmem_set_lock and shmem_clear_lock: the sections between them are disjoint.
use rmarace_bench.Base.{
  ℕ, String, Bool, not, ◌&&◌, ◌==◌, Option, none, some, List, [], ◌∷◌, str_eq, concat_map, false,
}
use rmarace_bench.Race.Execution.{Edge}
use rmarace_bench.Trace.{
  Trace, picked, steps_of, next_after, before, after, turn, choices, hand_overs,
}
use rmarace_bench.Shmem.Call.{Call}

pub record Section : Type 0 where
  pub rank : ℕ
  pub entered : ℕ
  pub left : ℕ
  pub lock : String

locked : Call → Option String
locked (Call.set_lock l) = some l
locked _ = none

clears : String → Call → Bool
clears l (Call.clear_lock m) = str_eq l m
clears l _ = false

section_from : ℕ → Trace Call → ℕ → String → List Section
unfolding clears steps_of next_after
section_from r t k l = elim (next_after k (steps_of (clears l) t)) [
  | none ↦ []
  | some j ↦ record { rank = r; entered = k; left = j; lock = l } ∷ []
]

unfoldable pub sections_of : ℕ → Trace Call → List Section
unfolding locked section_from picked
sections_of r t = concat_map (λ x. section_from r t x.0 x.1) (picked locked t)

-- The lock is taken during shmem_set_lock and given back during shmem_clear_lock.
unfoldable pub holding : Section → List Edge
holding s =
    record { earlier = before s.rank s.entered; later = turn s.rank s.entered 0 }
    ∷ record { earlier = turn s.rank s.entered 0; later = after s.rank s.entered }
    ∷ []

excludes : Section → Section → Bool
excludes s t = not (s.rank == t.rank) && str_eq s.lock t.lock

hands_over : Section → Section → Edge
hands_over s t = record { earlier = turn s.rank s.left 0; later = turn t.rank t.entered 0 }

-- Either of two sections of one lock may come first.
unfoldable pub lock_orders : List Section → List (List Edge)
unfolding excludes hands_over choices hand_overs
lock_orders ss = choices (hand_overs excludes hands_over ss)
