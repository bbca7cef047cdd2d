-- ===== src/Shmem/Guarantees/Signals.antt =====
-- Signals: which call a process may have waited for.
use rmarace_bench.Base.{
  ℕ, ◌&&◌, ◌==◌, Bool, none, some, List, [], ◌∷◌, map, concat_map, str_eq, select,
}
use rmarace_bench.Race.Execution.{Edge}
use rmarace_bench.Program.{Ptr}
use rmarace_bench.Trace.{Trace, picked, after}
use rmarace_bench.Shmem.Call.{Call}
use rmarace_bench.Shmem.Guarantees.Calls.{Transfer, transfer_of, waits_for}
use rmarace_bench.Shmem.Guarantees.Completion.{arrival, arrives}

-- A signal that a process sends at a step, to an object of another process.
pub record Signal : Type 0 where
  pub rank : ℕ
  pub step : ℕ
  pub pe : ℕ
  pub to : Ptr

signal_of : ℕ → ℕ × Transfer → List Signal
signal_of r (k, x) = elim x.signals [
  | none ↦ []
  | some q ↦ record { rank = r; step = k; pe = x.pe; to = q } ∷ []
]

unfoldable pub signals_of : ℕ → Trace Call → List Signal
unfolding picked transfer_of signal_of
signals_of r t = concat_map (signal_of r) (picked transfer_of t)

unfoldable pub arrivals_of : ℕ → Trace Call → List Edge
unfolding picked transfer_of arrives
arrivals_of r t = concat_map (λ x. arrives x.1 r x.0 t) (picked transfer_of t)

serves : ℕ → Ptr → Signal → Bool
serves r q s = s.pe == r && (str_eq s.to.object q.object && s.to.offset == q.offset)

-- For each call of process `r` that waits, the edges of which one holds: it returns after a signal
-- has arrived. All signals of the tests set the value that is waited for.
unfoldable pub waits_of : List Signal → ℕ → Trace Call → List (List Edge)
unfolding picked waits_for serves arrival
waits_of ss r t =
    map
      (λ x.
        map (λ s. record { earlier = arrival s.rank s.step; later = after r x.0 })
          (select (serves r x.1) ss))
      (picked waits_for t)
