-- ===== src/Mpi/Guarantees/Locks.antt =====
-- Passive target epochs. MPI_Win_lock may return before the lock is granted, unless it locks the
-- window of the caller itself; so the grant and the release are points of a process of their own.
use rmarace_bench.Base.{
  ℕ, String, Bool, true, false, not, ◌&&◌, ◌||◌, Option, none, some, List, [], ◌∷◌, concat_map,
  ◌==◌, ltb, str_eq, if◌then◌else◌, select,
}
use rmarace_bench.Race.Access.{Point}
use rmarace_bench.Race.Execution.{Edge}
use rmarace_bench.Mpi.Call.{Lock, lock_shared, lock_exclusive, Call}
use rmarace_bench.Trace.{
  choices, hand_overs, Trace, picked, steps_of, next_after, before, after, turn,
}

pub record Epoch : Type 0 where
  pub rank : ℕ
  pub opened : ℕ
  pub closed : ℕ
  pub exclusive : Bool
  pub target : ℕ
  pub win : String

abbrev pub granted : Epoch → Point
granted e = turn e.rank e.opened 0

abbrev pub released : Epoch → Point
released e = turn e.rank e.opened 1

locks : Call → Option Call
locks (Call.win_lock k t a w) = some (Call.win_lock k t a w)
locks _ = none

unlocks : ℕ → String → Call → Bool
unlocks target win (Call.win_unlock t w) = t == target && str_eq w win
unlocks target win _ = false

is_exclusive : Lock → Bool
is_exclusive lock_shared = false
is_exclusive lock_exclusive = true

opening : ℕ → Trace Call → ℕ → Call → List Epoch
unfolding unlocks is_exclusive steps_of next_after
opening r t k (Call.win_lock kind target _ win) =
    elim (next_after k (steps_of (unlocks target win) t)) [
      | none ↦ []
      | some j ↦
          record {
            rank = r;
            opened = k;
            closed = j;
            exclusive = is_exclusive kind;
            target = target;
            win = win;
          }
          ∷ []
    ]
opening r t k _ = []

unfoldable pub epochs_of : ℕ → Trace Call → List Epoch
unfolding opening locks picked
epochs_of r t = concat_map (λ x. opening r t x.0 x.1) (picked locks t)

-- The epoch that an operation of a process on a target belongs to.
unfoldable pub epoch_at : List Epoch → ℕ → ℕ → ℕ → String → List Epoch
epoch_at es r k target win =
    select
      (λ e.
        (e.rank == r && e.target == target)
        && (str_eq e.win win && (ltb e.opened k && ltb k e.closed)))
      es

-- The lock is granted after it is asked for, and given back during MPI_Win_unlock. The caller is
-- kept waiting for the grant by a lock on itself, and by MPI_Win_unlock in any case.
unfoldable pub holding : Epoch → List Edge
holding e =
    let asked : Edge = record { earlier = before e.rank e.opened; later = granted e } in
    let own : Edge = record { earlier = granted e; later = after e.rank e.opened } in
    let unlocking : Edge = record { earlier = before e.rank e.closed; later = released e } in
    let left : Edge = record { earlier = released e; later = after e.rank e.closed } in
    if e.target == e.rank
    then asked ∷ own ∷ unlocking ∷ left ∷ []
    else asked ∷ unlocking ∷ left ∷ []

abbrev hands_over : Epoch → Epoch → Edge
hands_over e f = record { earlier = released e; later = granted f }

excludes : Epoch → Epoch → Bool
excludes e f =
    not (e.rank == f.rank)
    && (e.target == f.target && (str_eq e.win f.win && (e.exclusive || f.exclusive)))

-- Either of two exclusive epochs may come first.
unfoldable pub lock_orders : List Epoch → List (List Edge)
unfolding excludes choices hand_overs
lock_orders es = choices (hand_overs excludes hands_over es)
