-- ===== src/Trace.antt =====
-- Where the calls of a process stand in its trace, and the points of its run.
use rmarace_bench.Base.{
  ℕ, suc, ◌+◌, ◌*◌, Bool, Option, none, some, List, [], ◌∷◌, ◌++◌, map, concat_map, ltb,
  if◌then◌else◌,
}
use rmarace_bench.Race.Access.{Point}
use rmarace_bench.Race.Execution.{Edge}
use rmarace_bench.Program.{Action}

abbrev pub Trace : Type 0 → Type 0
Trace C = List (Action C)

-- The calls of a process that a partial function picks, with their steps.
module _ {C A : Type 0} (pick : C → Option A) where
  abbrev keep : Option A → ℕ → List (ℕ × A) → List (ℕ × A)
  keep none k rest = rest
  keep (some a) k rest = (k, a) ∷ rest

  pub picked_from : ℕ → Trace C → List (ℕ × A)
  picked_from k [] = []
  picked_from k (Action.call _ c ∷ t) = keep (pick c) k (picked_from (suc k) t)
  picked_from k (_ ∷ t) = picked_from (suc k) t

  unfoldable pub picked : Trace C → List (ℕ × A)
  unfolding picked_from
  picked t = picked_from 0 t

abbrev test : {C : Type 0} → (C → Bool) → C → Option (Unit {0})
test p c = if p c then some tt else none

unfoldable pub steps_of : {C : Type 0} → (C → Bool) → Trace C → List ℕ
unfolding picked
steps_of p t = map (λ x. x.0) (picked (test p) t)

-- The first step of a list that is later than `k`.
unfoldable pub next_after : ℕ → List ℕ → Option ℕ
next_after k [] = none
next_after k (j ∷ js) = let rest = next_after k js in if ltb k j then some j else rest

-- The moments before and after an action.
abbrev pub before : ℕ → ℕ → Point
before r k = record { rank = r; step = k }

abbrev pub after : ℕ → ℕ → Point
after r k = record { rank = r; step = suc k }

-- The moments within a call at which something changes hands: points of their own.
abbrev pub turn : ℕ → ℕ → ℕ → Point
turn r k n = record { rank = 1000 * (r + 1) + k; step = n }

-- A call of one process is entered before another's call returns.
abbrev pub signals : ℕ → ℕ → ℕ → ℕ → Edge
signals r k s j = record { earlier = before r k; later = after s j }

-- One of two edges for each pair, in all ways.
unfoldable pub choices : List (Edge × Edge) → List (List Edge)
choices [] = [] ∷ []
choices ((d, e) ∷ rest) =
    let others = choices rest in map (λ o. d ∷ o) others ++ map (λ o. e ∷ o) others

-- Of any two of a list that exclude one another, either may hand over to the other.
unfoldable pub hand_overs :
    {A : Type 0} → (A → A → Bool) → (A → A → Edge) → List A → List (Edge × Edge)
hand_overs excludes edge [] = []
hand_overs excludes edge (a ∷ others) =
    concat_map (λ b. if excludes a b then (edge a b, edge b a) ∷ [] else []) others
    ++ hand_overs excludes edge others

-- One edge of each list, in all ways.
unfoldable pub ways : List (List Edge) → List (List Edge)
ways [] = [] ∷ []
ways (es ∷ rest) = let others = ways rest in concat_map (λ e. map (λ o. e ∷ o) others) es
