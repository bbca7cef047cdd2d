-- ===== src/Mpi/Guarantees/Calls.antt =====
-- The calls one by one: the memory that a one-sided call accesses, and the completion calls.
use rmarace_bench.Base.{
  ℕ, ◌*◌, String, Bool, false, ◌&&◌, Option, none, some, List, [], ◌∷◌, ◌==◌, str_eq, map,
  if◌then◌else◌,
}
use rmarace_bench.Race.Access.{Datatype, Mode, read, write, atomic_read, atomic_update, size_of}
use rmarace_bench.Program.{Ptr}
use rmarace_bench.Trace.{Trace, picked}
use rmarace_bench.Mpi.Call.{Reduction, no_op, Call}

pub record Buffer : Type 0 where
  pub start : Ptr
  pub bytes : ℕ
  pub mode : Mode

pub record Rma : Type 0 where
  pub name : String
  pub win : String
  pub target : ℕ
  pub disp : ℕ  -- in displacement units of the window
  pub bytes : ℕ
  pub at_target : Mode
  pub at_origin : List Buffer
  pub request : Option String

reads : Ptr → ℕ → Datatype → Buffer
reads p n t = record { start = p; bytes = n * size_of t; mode = read }

writes : Ptr → ℕ → Datatype → Buffer
writes p n t = record { start = p; bytes = n * size_of t; mode = write }

-- Accumulate operations on one datatype are atomic to one another; MPI_NO_OP only reads.
accumulates : Datatype → Reduction → Mode
accumulates t Reduction.sum = atomic_update t
accumulates t Reduction.replace = atomic_update t
accumulates t no_op = atomic_read t

reads_option : Option Ptr → ℕ → Datatype → List Buffer
unfolding reads
reads_option none n t = []
reads_option (some p) n t = reads p n t ∷ []

unfoldable pub rma_of : Call → Option Rma
unfolding reads writes accumulates reads_option
rma_of (Call.put p n t target disp m u win) = some (record {
  name = "MPI_Put";
  win = win;
  target = target;
  disp = disp;
  bytes = m * size_of u;
  at_target = write;
  at_origin = reads p n t ∷ [];
  request = none;
})
rma_of (Call.get p n t target disp m u win) = some (record {
  name = "MPI_Get";
  win = win;
  target = target;
  disp = disp;
  bytes = m * size_of u;
  at_target = read;
  at_origin = writes p n t ∷ [];
  request = none;
})
rma_of (Call.rget p n t target disp m u win req) = some (record {
  name = "MPI_Rget";
  win = win;
  target = target;
  disp = disp;
  bytes = m * size_of u;
  at_target = read;
  at_origin = writes p n t ∷ [];
  request = some req;
})
rma_of (Call.accumulate p n t target disp m u op win) = some (record {
  name = "MPI_Accumulate";
  win = win;
  target = target;
  disp = disp;
  bytes = m * size_of u;
  at_target = accumulates u op;
  at_origin = reads p n t ∷ [];
  request = none;
})
rma_of (Call.get_accumulate p n r k t target disp m u op win) = some (record {
  name = "MPI_Get_accumulate";
  win = win;
  target = target;
  disp = disp;
  bytes = m * size_of u;
  at_target = accumulates u op;
  at_origin = writes r k t ∷ reads_option p n t;
  request = none;
})
rma_of (Call.fetch_and_op p r t target disp op win) = some (record {
  name = "MPI_Fetch_and_op";
  win = win;
  target = target;
  disp = disp;
  bytes = size_of t;
  at_target = accumulates t op;
  at_origin = reads p 1 t ∷ writes r 1 t ∷ [];
  request = none;
})
rma_of (Call.compare_and_swap p c r t target disp win) = some (record {
  name = "MPI_Compare_and_swap";
  win = win;
  target = target;
  disp = disp;
  bytes = size_of t;
  at_target = atomic_update t;
  at_origin = reads p 1 t ∷ reads c 1 t ∷ writes r 1 t ∷ [];
  request = none;
})
rma_of _ = none

unit_for : String → Call → Option ℕ
unit_for win (Call.win_allocate _ u w) = if str_eq w win then some u else none
unit_for win _ = none

-- The displacement unit with which a process has allocated the window.
unfoldable pub units_of : String → Trace Call → List ℕ
unfolding picked unit_for
units_of win t = map (λ x. x.1) (picked (unit_for win) t)

-- The call completes, at origin and target, the operations that its process issued before it.
unfoldable pub closes_target : Rma → Call → Bool
closes_target o (Call.win_fence _ w) = str_eq w o.win
closes_target o (Call.win_unlock t w) = t == o.target && str_eq w o.win
closes_target o (Call.win_unlock_all w) = str_eq w o.win
closes_target o (Call.win_flush t w) = t == o.target && str_eq w o.win
closes_target o (Call.win_flush_all w) = str_eq w o.win
closes_target o _ = false

requested : Option String → String → Bool
requested none r = false
requested (some q) r = str_eq q r

-- The call completes them at the origin only.
unfoldable pub closes_origin : Rma → Call → Bool
unfolding requested
closes_origin o (Call.win_flush_local t w) = t == o.target && str_eq w o.win
closes_origin o (Call.win_flush_local_all w) = str_eq w o.win
closes_origin o (Call.win_complete w) = str_eq w o.win
closes_origin o (Call.wait r) = requested o.request r
closes_origin o _ = false
