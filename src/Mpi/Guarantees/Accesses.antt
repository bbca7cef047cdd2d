-- ===== src/Mpi/Guarantees/Accesses.antt =====
-- The accesses of a test, and its behaviour.
use rmarace_bench.Base.{
  ℕ, suc, ◌*◌, String, true, false, Option, none, some, List, [], ◌∷◌, ◌++◌, map, if◌then◌else◌,
  concat_map, get_elem?,
}
use rmarace_bench.Race.Access.{Mode, read, write, size_of, Access}
use rmarace_bench.Race.Execution.{Edge, Behaviour}
use rmarace_bench.Program.{Ptr, Action}
use rmarace_bench.Mpi.Call.{Call}
use rmarace_bench.Mpi.Guarantees.Calls.{Buffer, Rma, rma_of, units_of}
use rmarace_bench.Mpi.Guarantees.Locks.{Epoch, epochs_of, holding, lock_orders}
use rmarace_bench.Mpi.Guarantees.Completion.{origin_ends, target_begins, target_ends}
use rmarace_bench.Mpi.Guarantees.Synchronisation.{synchronise, turns}
use rmarace_bench.Trace.{Trace, before, after}

trace_at : List (Trace Call) → ℕ → Trace Call
trace_at traces r = elim (get_elem? traces r) [ none ↦ [] | some t ↦ t ]

-- Each process of the tests allocates the window once.
unit_in : List ℕ → ℕ
unit_in [] = 0
unit_in (u ∷ _) = u

-- An access by the process itself, done when the action returns.
own_access : ℕ → ℕ → String → ℕ → Ptr → ℕ → Mode → Access
own_access r k name line p n m = record {
  issue = before r k;
  site = record { name = name; line = line };
  owner = r;
  object = p.object;
  at_target = false;
  first = p.offset;
  size = n;
  mode = m;
  begins = before r k ∷ [];
  ends = after r k ∷ [];
}

module _ (traces : List (Trace Call)) (epochs : List Epoch) (r k line : ℕ) where
  origin_access : Rma → Buffer → Access
  unfolding own_access origin_ends trace_at
  origin_access o b = record (own_access r k o.name line b.start b.bytes b.mode) {
    ends = origin_ends o r k (trace_at traces r) (trace_at traces o.target) epochs;
  }

  target_access : Rma → Access
  unfolding target_begins target_ends trace_at unit_in units_of
  target_access o = record {
    issue = before r k;
    site = record { name = o.name; line = line };
    owner = o.target;
    object = o.win;
    at_target = true;
    first = o.disp * unit_in (units_of o.win (trace_at traces o.target));
    size = o.bytes;
    mode = o.at_target;
    begins = target_begins o r k (trace_at traces r) (trace_at traces o.target) epochs;
    ends = target_ends o r k (trace_at traces r) (trace_at traces o.target) epochs;
  }

  one_sided : Option Rma → List Access
  unfolding origin_access target_access
  one_sided none = []
  one_sided (some o) = target_access o ∷ map (origin_access o) o.at_origin

  call_accesses : Call → List Access
  unfolding one_sided own_access rma_of
  call_accesses (Call.send p n t _ _) = own_access r k "MPI_Send" line p (n * size_of t) read ∷ []
  call_accesses (Call.recv p n t _ _) = own_access r k "MPI_Recv" line p (n * size_of t) write ∷ []
  call_accesses c = one_sided (rma_of c)

action_accesses : List (Trace Call) → List Epoch → ℕ → ℕ → Action Call → List Access
unfolding own_access call_accesses
action_accesses ts es r k (Action.load line t p) =
    own_access r k "LOAD" line p (size_of t) read ∷ []
action_accesses ts es r k (Action.store line t p _) =
    own_access r k "STORE" line p (size_of t) write ∷ []
action_accesses ts es r k (Action.thread line _) = []
action_accesses ts es r k (Action.exit line _) = []
action_accesses ts es r k (Action.call line c) = call_accesses ts es r k line c

accesses_from : List (Trace Call) → List Epoch → ℕ → ℕ → Trace Call → List Access
unfolding action_accesses
accesses_from ts es r k [] = []
accesses_from ts es r k (a ∷ t) = action_accesses ts es r k a ++ accesses_from ts es r (suc k) t

all_accesses : List (Trace Call) → List Epoch → ℕ → List (Trace Call) → List Access
unfolding accesses_from
all_accesses ts es r [] = []
all_accesses ts es r (t ∷ rest) = accesses_from ts es r 0 t ++ all_accesses ts es (suc r) rest

all_epochs : ℕ → List (Trace Call) → List Epoch
unfolding epochs_of
all_epochs r [] = []
all_epochs r (t ∷ rest) = epochs_of r t ++ all_epochs (suc r) rest

with_others : ℕ → Trace Call → ℕ → List (Trace Call) → List Edge
unfolding synchronise
with_others r t s [] = []
with_others r t s (u ∷ rest) = synchronise r t s u ++ with_others r t (suc s) rest

all_edges : ℕ → List (Trace Call) → List Edge
unfolding with_others
all_edges r [] = []
all_edges r (t ∷ rest) = with_others r t (suc r) rest ++ all_edges (suc r) rest

own_turns : ℕ → List (Trace Call) → List Edge
unfolding turns
own_turns r [] = []
own_turns r (t ∷ rest) = turns r t ++ own_turns (suc r) rest

-- An access lies between its begins and its ends, which orders these.
spans : Access → List Edge
spans a =
    if a.at_target
    then concat_map (λ p. map (λ q. record { earlier = p; later = q }) a.ends) a.begins
    else []

-- The behaviour of processes with these traces, the process of rank 0 first.
unfoldable pub behaviour : List (Trace Call) → Behaviour
unfolding all_accesses all_epochs all_edges lock_orders holding own_turns spans
behaviour traces =
    let epochs = all_epochs 0 traces in
    let accesses = all_accesses traces epochs 0 traces in
    let base =
      all_edges 0 traces
      ++ own_turns 0 traces
      ++ concat_map holding epochs
      ++ concat_map spans accesses in
    record { orders = map (λ o. base ++ o) (lock_orders epochs); accesses = accesses }
