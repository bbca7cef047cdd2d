-- ===== src/Gaspi/Guarantees/Accesses.antt =====
-- The accesses of a test, and its behaviour.
use rmarace_bench.Base.{
  ℕ, suc, String, true, false, Option, none, some, List, [], ◌∷◌, ◌++◌, map, concat_map,
  if◌then◌else◌,
}
use rmarace_bench.Race.Access.{Mode, read, write, size_of, Access}
use rmarace_bench.Race.Execution.{Edge, Behaviour}
use rmarace_bench.Program.{Ptr, Action}
use rmarace_bench.Gaspi.Call.{Call}
use rmarace_bench.Gaspi.Guarantees.Calls.{Buffer, Transfer, transfer_of, own_buffers}
use rmarace_bench.Gaspi.Guarantees.Notifications.{
  Post, Message, posts_of, messages_of, arrives, waits_of,
}
use rmarace_bench.Gaspi.Guarantees.Completion.{origin_ends, target_ends, synchronise}
use rmarace_bench.Trace.{ways, Trace, before, after}

-- An access by the process itself, done when the action returns.
own_access : ℕ → ℕ → String → ℕ → Ptr → ℕ → Mode → Access
own_access r k name line q n m = record {
  issue = before r k;
  site = record { name = name; line = line };
  owner = r;
  object = q.object;
  at_target = false;
  first = q.offset;
  size = n;
  mode = m;
  begins = before r k ∷ [];
  ends = after r k ∷ [];
}

module _ (posts : List Post) (r k line : ℕ) (t : Trace Call) where
  origin_access : Transfer → Buffer → Access
  unfolding own_access origin_ends
  origin_access x b = record (own_access r k x.name line b.start b.bytes b.mode) {
    ends = origin_ends x r k t posts;
  }

  -- in the memory of the other process
  target_access : Transfer → Buffer → Access
  unfolding own_access target_ends
  target_access x b = record (own_access r k x.name line b.start b.bytes b.mode) {
    owner = x.rank;
    at_target = true;
    ends = target_ends x r k t posts;
  }

  transferred : Option Transfer → List Access
  unfolding origin_access target_access
  transferred none = []
  transferred (some x) = map (target_access x) x.at_target ++ map (origin_access x) x.at_origin

  action_accesses : Action Call → List Access
  unfolding own_access transferred transfer_of own_buffers
  action_accesses (Action.load l ty q) = own_access r k "LOAD" l q (size_of ty) read ∷ []
  action_accesses (Action.store l ty q _) = own_access r k "STORE" l q (size_of ty) write ∷ []
  action_accesses (Action.thread l _) = []
  action_accesses (Action.exit l _) = []
  action_accesses (Action.call l c) =
      map (λ x. own_access r k x.0 l x.1.start x.1.bytes x.1.mode) (own_buffers c)
      ++ transferred (transfer_of c)

line_of : Action Call → ℕ
line_of (Action.load l _ _) = l
line_of (Action.store l _ _ _) = l
line_of (Action.call l _) = l
line_of (Action.thread l _) = l
line_of (Action.exit l _) = l

accesses_from : List Post → ℕ → ℕ → Trace Call → Trace Call → List Access
unfolding action_accesses line_of
accesses_from ps r k whole [] = []
accesses_from ps r k whole (a ∷ t) =
    action_accesses ps r k (line_of a) whole a ++ accesses_from ps r (suc k) whole t

all_accesses : List Post → ℕ → List (Trace Call) → List Access
unfolding accesses_from
all_accesses ps r [] = []
all_accesses ps r (t ∷ rest) = accesses_from ps r 0 t t ++ all_accesses ps (suc r) rest

all_posts : ℕ → List (Trace Call) → List Post
unfolding posts_of
all_posts r [] = []
all_posts r (t ∷ rest) = posts_of r t ++ all_posts (suc r) rest

all_messages : ℕ → List (Trace Call) → List Message
unfolding messages_of
all_messages r [] = []
all_messages r (t ∷ rest) = messages_of r t ++ all_messages (suc r) rest

all_waits : List Post → List Message → ℕ → List (Trace Call) → List (List Edge)
unfolding waits_of
all_waits ps ms r [] = []
all_waits ps ms r (t ∷ rest) = waits_of ps ms r t ++ all_waits ps ms (suc r) rest

with_others : ℕ → Trace Call → ℕ → List (Trace Call) → List Edge
unfolding synchronise
with_others r t s [] = []
with_others r t s (u ∷ rest) = synchronise r t s u ++ with_others r t (suc s) rest

all_edges : ℕ → List (Trace Call) → List Edge
unfolding with_others
all_edges r [] = []
all_edges r (t ∷ rest) = with_others r t (suc r) rest ++ all_edges (suc r) rest

-- An access lies between its begins and its ends, which orders these.
spans : Access → List Edge
spans a =
    if a.at_target
    then concat_map (λ p. map (λ q. record { earlier = p; later = q }) a.ends) a.begins
    else []

-- The behaviour of processes with these traces, the process of rank 0 first.
unfoldable pub behaviour : List (Trace Call) → Behaviour
unfolding all_accesses all_posts all_messages all_waits all_edges arrives ways spans
behaviour traces =
    let posts = all_posts 0 traces in
    let accesses = all_accesses posts 0 traces in
    let base = all_edges 0 traces ++ map arrives posts ++ concat_map spans accesses in
    record {
      orders = map (λ o. base ++ o) (ways (all_waits posts (all_messages 0 traces) 0 traces));
      accesses = accesses;
    }
