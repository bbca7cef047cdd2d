-- ===== src/Shmem/Guarantees/Accesses.antt =====
-- The accesses of a test, and its behaviour.
use rmarace_bench.Base.{
  ℕ, suc, String, true, false, Option, none, some, List, [], ◌∷◌, ◌++◌, map, if◌then◌else◌,
  concat_map,
}
use rmarace_bench.Race.Access.{Mode, read, write, size_of, Access}
use rmarace_bench.Race.Execution.{Edge, Behaviour}
use rmarace_bench.Program.{Ptr, Action}
use rmarace_bench.Shmem.Call.{Call}
use rmarace_bench.Shmem.Guarantees.Calls.{Buffer, Transfer, transfer_of}
use rmarace_bench.Shmem.Guarantees.Locks.{Section, sections_of, holding, lock_orders}
use rmarace_bench.Shmem.Guarantees.Completion.{
  origin_ends, target_begins, target_ends, completions, synchronise,
}
use rmarace_bench.Shmem.Guarantees.Signals.{Signal, signals_of, arrivals_of, waits_of}
use rmarace_bench.Trace.{ways, Trace, before, after}

-- An access by the process itself, done when the action returns.
own_access : ℕ → ℕ → String → ℕ → Ptr → ℕ → Mode → Access
own_access r k name line q n m = record {
  issue = before r k;
  site = record { name = name; line = line };
  owner = r;
  object = q.object;
  at_target = false;
  first = q.offset;
  size = n;
  mode = m;
  begins = before r k ∷ [];
  ends = after r k ∷ [];
}

module _ (r k line : ℕ) (t : Trace Call) where
  origin_access : Transfer → Buffer → Access
  unfolding own_access origin_ends
  origin_access x b = record (own_access r k x.name line b.start b.bytes b.mode) {
    ends = origin_ends x r k t;
  }

  -- a symmetric object, in the memory of the other process
  target_access : Transfer → Buffer → Access
  unfolding target_begins target_ends
  target_access x b = record {
    issue = before r k;
    site = record { name = x.name; line = line };
    owner = x.pe;
    object = b.start.object;
    at_target = true;
    first = b.start.offset;
    size = b.bytes;
    mode = b.mode;
    begins = target_begins x r k t;
    ends = target_ends x r k t;
  }

  transferred : Option Transfer → List Access
  unfolding origin_access target_access
  transferred none = []
  transferred (some x) = map (target_access x) x.at_target ++ map (origin_access x) x.at_origin

  action_accesses : Action Call → List Access
  unfolding own_access transferred transfer_of
  action_accesses (Action.load l ty q) = own_access r k "LOAD" l q (size_of ty) read ∷ []
  action_accesses (Action.store l ty q _) = own_access r k "STORE" l q (size_of ty) write ∷ []
  action_accesses (Action.thread l _) = []
  action_accesses (Action.exit l _) = []
  action_accesses (Action.call l c) = transferred (transfer_of c)

line_of : Action Call → ℕ
line_of (Action.load l _ _) = l
line_of (Action.store l _ _ _) = l
line_of (Action.call l _) = l
line_of (Action.thread l _) = l
line_of (Action.exit l _) = l

accesses_from : ℕ → ℕ → Trace Call → Trace Call → List Access
unfolding action_accesses line_of
accesses_from r k whole [] = []
accesses_from r k whole (a ∷ t) =
    action_accesses r k (line_of a) whole a ++ accesses_from r (suc k) whole t

all_accesses : ℕ → List (Trace Call) → List Access
unfolding accesses_from
all_accesses r [] = []
all_accesses r (t ∷ rest) = accesses_from r 0 t t ++ all_accesses (suc r) rest

all_sections : ℕ → List (Trace Call) → List Section
unfolding sections_of
all_sections r [] = []
all_sections r (t ∷ rest) = sections_of r t ++ all_sections (suc r) rest

with_others : ℕ → Trace Call → ℕ → List (Trace Call) → List Edge
unfolding synchronise
with_others r t s [] = []
with_others r t s (u ∷ rest) = synchronise r t s u ++ with_others r t (suc s) rest

all_edges : ℕ → List (Trace Call) → List Edge
unfolding with_others completions
all_edges r [] = []
all_edges r (t ∷ rest) = completions r t ++ with_others r t (suc r) rest ++ all_edges (suc r) rest

all_signals : ℕ → List (Trace Call) → List Signal
unfolding signals_of
all_signals r [] = []
all_signals r (t ∷ rest) = signals_of r t ++ all_signals (suc r) rest

all_arrivals : ℕ → List (Trace Call) → List Edge
unfolding arrivals_of
all_arrivals r [] = []
all_arrivals r (t ∷ rest) = arrivals_of r t ++ all_arrivals (suc r) rest

all_waits : List Signal → ℕ → List (Trace Call) → List (List Edge)
unfolding waits_of
all_waits ss r [] = []
all_waits ss r (t ∷ rest) = waits_of ss r t ++ all_waits ss (suc r) rest

-- An access lies between its begins and its ends, which orders these.
spans : Access → List Edge
spans a =
    if a.at_target
    then concat_map (λ p. map (λ q. record { earlier = p; later = q }) a.ends) a.begins
    else []

-- The behaviour of processes with these traces, the process of rank 0 first.
unfoldable pub behaviour : List (Trace Call) → Behaviour
unfolding all_accesses all_sections all_edges all_signals all_arrivals all_waits lock_orders holding
    spans ways
behaviour traces =
    let sections = all_sections 0 traces in
    let accesses = all_accesses 0 traces in
    let base =
      all_edges 0 traces
      ++ all_arrivals 0 traces
      ++ concat_map holding sections
      ++ concat_map spans accesses in
    let waits = ways (all_waits (all_signals 0 traces) 0 traces) in
    record {
      orders = concat_map (λ w. map (λ o. base ++ w ++ o) (lock_orders sections)) waits;
      accesses = accesses;
    }
