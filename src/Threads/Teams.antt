-- ===== src/Threads/Teams.antt =====
-- The order of the actions of a process with threads. The rules of a library are applied to the
-- actions of each process in the order of its text; then the points of the two threads of a team
-- become points of two sequences of their own, between the fork and the join.
use rmarace_bench.Base.{
  ℕ, suc, ◌+◌, ◌*◌, String, ◌&&◌, ◌==◌, List, [], ◌∷◌, ◌++◌, map, concat_map, ltb, leb, str_eq,
  select, if◌then◌else◌,
}
use rmarace_bench.Race.Access.{Point, Access}
use rmarace_bench.Race.Execution.{Edge, Behaviour}
use rmarace_bench.Program.{Directive, Action}
use rmarace_bench.Trace.{Trace, signals}

-- The steps of a fork of a process, of where the second thread begins, and of the join.
record Team : Type 0 where
  rank : ℕ
  forked : ℕ
  divided : ℕ
  joined : ℕ

module _ {C : Type 0} where
  -- the teams from step `k` on, with the last fork and division before it
  teams_from : ℕ → ℕ → ℕ → ℕ → Trace C → List Team
  teams_from r f d k [] = []
  teams_from r f d k (Action.thread _ Directive.fork ∷ t) = teams_from r k d (suc k) t
  teams_from r f d k (Action.thread _ Directive.next ∷ t) = teams_from r f k (suc k) t
  teams_from r f d k (Action.thread _ Directive.join ∷ t) =
      record { rank = r; forked = f; divided = d; joined = k } ∷ teams_from r f d (suc k) t
  teams_from r f d k (_ ∷ t) = teams_from r f d (suc k) t

  all_teams : ℕ → List (Trace C) → List Team
  unfolding teams_from
  all_teams r [] = []
  all_teams r (t ∷ rest) = teams_from r 0 0 0 t ++ all_teams (suc r) rest

  raised : ℕ → Trace C → List (ℕ × String)
  raised k [] = []
  raised k (Action.thread _ (Directive.raise s) ∷ t) = (k, s) ∷ raised (suc k) t
  raised k (_ ∷ t) = raised (suc k) t

  awaited : ℕ → Trace C → List (ℕ × String)
  awaited k [] = []
  awaited k (Action.thread _ (Directive.await s) ∷ t) = (k, s) ∷ awaited (suc k) t
  awaited k (_ ∷ t) = awaited (suc k) t

  -- my_wait returns after my_signal has begun
  flag_edges : ℕ → Trace C → List Edge
  unfolding raised awaited
  flag_edges r t =
      concat_map (λ w. map (λ x. signals r x.0 r w.0) (select (λ x. str_eq x.1 w.1) (raised 0 t)))
        (awaited 0 t)

  all_flags : ℕ → List (Trace C) → List Edge
  unfolding flag_edges
  all_flags r [] = []
  all_flags r (t ∷ rest) = flag_edges r t ++ all_flags (suc r) rest

-- The sequences of the two threads have ranks that no process has.
thread_point : ℕ → Team → ℕ → Point
thread_point i g k = record { rank = 10_000 * (g.rank + 1) + 2 * g.forked + i; step = k }

place : List Team → Point → Point
unfolding thread_point
place [] p = p
place (g ∷ gs) p =
    let rest = place gs p in
    if p.rank == g.rank && (ltb g.forked p.step && leb p.step g.joined)
    then (if leb p.step g.divided then thread_point 0 g p.step else thread_point 1 g p.step)
    else rest

-- Both threads begin after the fork, and end before the join.
team_edges : Team → List Edge
unfolding thread_point
team_edges g =
    let fork : Point = record { rank = g.rank; step = g.forked } in
    let join : Point = record { rank = g.rank; step = suc g.joined } in
    record { earlier = fork; later = thread_point 0 g (suc g.forked) }
    ∷ record { earlier = fork; later = thread_point 1 g (suc g.divided) }
    ∷ record { earlier = thread_point 0 g g.divided; later = join }
    ∷ record { earlier = thread_point 1 g g.joined; later = join }
    ∷ []

module _ (gs : List Team) where
  place_edge : Edge → Edge
  unfolding place
  place_edge d = record { earlier = place gs d.earlier; later = place gs d.later }

  place_access : Access → Access
  unfolding place
  place_access a = record a {
    issue = place gs a.issue;
    begins = map (place gs) a.begins;
    ends = map (place gs) a.ends;
  }

-- The behaviour of processes with threads, by the rules for processes without.
unfoldable pub threaded : {C : Type 0} → (List (Trace C) → Behaviour) → List (Trace C) → Behaviour
unfolding all_teams all_flags team_edges place_edge place_access
threaded rules traces =
    let b = rules traces in
    let gs = all_teams 0 traces in
    let own = concat_map team_edges gs ++ map (place_edge gs) (all_flags 0 traces) in
    record {
      orders = map (λ o. own ++ map (place_edge gs) o) b.orders;
      accesses = map (place_access gs) b.accesses;
    }
