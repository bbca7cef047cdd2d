-- ===== src/Race/Execution.antt =====
-- Executions as timings. An execution says when each process reaches each of its points and when
-- each access begins and finishes: it stands for whatever the communication library and the
-- scheduler do. What is known of them is `IsLegal`, and nothing else.
use rmarace_bench.Base.{ℕ, suc, ◌≤◌, ◌<◌, List, All}
use rmarace_bench.Race.Access.{Point, Access}

pub record Execution : Type 0 where
  pub at : ℕ → ℕ → ℕ  -- rank, step
  pub starts : Access → ℕ
  pub finishes : Access → ℕ

abbrev pub time : Execution → Point → ℕ
time e p = e.at p.rank p.step

-- One point is reached before another on every run, by a synchronisation between processes.
pub record Edge : Type 0 where
  pub earlier : Point
  pub later : Point

-- The accesses of a run of a test, and the ways in which its synchronisation may order it: one
-- list of edges, or several where the order is a race of its own (who gets an exclusive lock).
pub record Behaviour : Type 0 where
  pub orders : List (List Edge)
  pub accesses : List Access

-- The access lies between the points that its call and its completion give.
pub record IsTimely (e : Execution) (a : Access) : Type 0 where
  pub after : All (λ p. time e p ≤ e.starts a) a.begins
  pub takes_time : e.starts a < e.finishes a
  pub before : All (λ p. e.finishes a ≤ time e p) a.ends

-- Each process runs its actions in order, synchronisation is obeyed, and accesses are timely.
pub record IsLegal (edges : List Edge) (accesses : List Access) (e : Execution) : Type 0 where
  pub in_order : (r k : ℕ) → e.at r k < e.at r (suc k)
  pub synchronised : All (λ d. time e d.earlier < time e d.later) edges
  pub timely : All (IsTimely e) accesses

-- Two accesses are in progress at the same time.
abbrev pub Overlap : Execution → Access → Access → Type 0
Overlap e a b = (e.starts a < e.finishes b) × (e.starts b < e.finishes a)
