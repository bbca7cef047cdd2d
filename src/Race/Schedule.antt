-- ===== src/Race/Schedule.antt =====
-- Executions in which two given accesses overlap: every process runs on, except that it is held up
-- before the points at which the two accesses are known to be finished. What has to wait for those
-- points by synchronisation is delayed with them (`relax`). Whether the result is legal is tested.
use mathlib.Core.List.{foldl}
use Prim.Native.Nat.{min, max}
use rmarace_bench.Base.{
  ℕ, zero, suc, ◌+◌, ◌-◌, ◌≤◌, ◌<◌, ◌≡◌, Bool, true, ◌&&◌, List, [], ◌∷◌, ◌++◌, map, arith, ltb,
  leb, ◌==◌, if◌then◌else◌, all, All-of_all, ltb→lt, leb→le, &&-eq-true,
}
use rmarace_bench.Race.Access.{Point, Access}
use rmarace_bench.Race.Execution.{Execution, time, Edge, IsTimely, IsLegal, Overlap}

-- The process stands still for `length` just before the point.
pub record Delay : Type 0 where
  pub rank : ℕ
  pub step : ℕ
  pub length : ℕ

pub delay_of : Delay → ℕ → ℕ → ℕ
delay_of d r k = if d.rank == r && leb d.step k then d.length else 0

pub clock : List Delay → ℕ → ℕ → ℕ
clock [] r k = k
clock (d ∷ ds) r k = delay_of d r k + clock ds r k

delay_of_mono : (d : Delay) (r k : ℕ) → delay_of d r k ≤ delay_of d r (suc k)
unfolding delay_of
delay_of_mono d r k = ground arith

clock_in_order : (ds : List Delay) (r k : ℕ) → clock ds r k < clock ds r (suc k)
unfolding clock
clock_in_order [] r k = omega arith
clock_in_order (d ∷ ds) r k = omega (arith, delay_of_mono d r k, clock_in_order ds r k)

abbrev pub clock_at : List Delay → Point → ℕ
clock_at ds p = clock ds p.rank p.step

-- later than all that a test does
abbrev pub horizon : ℕ
horizon = 1_000_000

latest : List Delay → List Point → ℕ
latest ds [] = 0
latest ds (p ∷ ps) = max (clock_at ds p) (latest ds ps)

earliest : List Delay → List Point → ℕ
earliest ds [] = horizon
earliest ds (p ∷ ps) = min (clock_at ds p) (earliest ds ps)

-- Each access takes all the time that its completion leaves it.
unfoldable pub execution_of : List Delay → Execution
unfolding clock delay_of latest earliest
execution_of ds = record {
  at = clock ds;
  starts = λ a. latest ds a.begins;
  finishes = λ a. earliest ds a.ends;
}

pub relax : List Delay → Edge → List Delay
relax ds d =
    let before = clock_at ds d.earlier in
    let after = clock_at ds d.later in
    if ltb before after
    then ds
    else record { rank = d.later.rank; step = d.later.step; length = suc (before - after) } ∷ ds

unfoldable pub relax_all : ℕ → List Edge → List Delay → List Delay
unfolding relax clock delay_of
relax_all zero edges ds = ds
relax_all (suc n) edges ds = relax_all n edges (foldl relax ds edges)

abbrev pub hold_up : Point → Delay
hold_up p = record { rank = p.rank; step = p.step; length = 1000 }

unfoldable pub schedule : List Edge → Access → Access → List Delay
unfolding relax_all
schedule edges a b = relax_all 4 edges (map hold_up (a.ends ++ b.ends))

pub timely? : Execution → Access → Bool
timely? e a =
    all (λ p. leb (time e p) (e.starts a)) a.begins
    && (ltb (e.starts a) (e.finishes a) && all (λ p. leb (e.finishes a) (time e p)) a.ends)

unfoldable pub legal? : List Edge → List Access → Execution → Bool
unfolding all timely?
legal? edges accesses e =
    all (λ d. ltb (time e d.earlier) (time e d.later)) edges && all (timely? e) accesses

unfoldable pub overlap? : Execution → Access → Access → Bool
overlap? e a b = ltb (e.starts a) (e.finishes b) && ltb (e.starts b) (e.finishes a)

IsTimely-of : (e : Execution) (a : Access) → timely? e a ≡ true → IsTimely e a
unfolding timely?
IsTimely-of e a h =
    let (after, rest) = &&-eq-true (all (λ p. leb (time e p) (e.starts a)) a.begins) _ h in
    let (takes, before) = &&-eq-true (ltb (e.starts a) (e.finishes a)) _ rest in
    record {
      after = All-of_all _ _ (λ p. leb→le (time e p) (e.starts a)) a.begins after;
      takes_time = ltb→lt (e.starts a) (e.finishes a) takes;
      before = All-of_all _ _ (λ p. leb→le (e.finishes a) (time e p)) a.ends before;
    }

-- A timing that passes the test is a legal execution.
pub legal?-IsLegal :
    (edges : List Edge) (accesses : List Access) (ds : List Delay)
    → legal? edges accesses (execution_of ds) ≡ true
    → IsLegal edges accesses (execution_of ds)
unfolding legal? execution_of
legal?-IsLegal edges accesses ds h =
    let e = execution_of ds in
    let (syncs, accs) =
      &&-eq-true (all (λ (d : Edge). ltb (time e d.earlier) (time e d.later)) edges)
        (all (timely? e) accesses) h in
    record {
      in_order = clock_in_order ds;
      synchronised = All-of_all _ _ (λ d. ltb→lt (time e d.earlier) (time e d.later)) edges syncs;
      timely = All-of_all _ _ (IsTimely-of e) accesses accs;
    }

pub overlap?-Overlap : (e : Execution) (a b : Access) → overlap? e a b ≡ true → Overlap e a b
unfolding overlap?
overlap?-Overlap e a b h = ground arith
