-- ===== src/Race/Order.antt =====
-- When synchronisation orders one access before another. `reach` collects the points known to come
-- after a given one; what it finds holds in every legal execution.
use mathlib.Core.List.{foldl}
use native.Mathlib.Nat.{le_refl, zero-add, suc-add}
use rmarace_bench.Base.{
  ℕ, zero, suc, ◌+◌, ◌-◌, ◌≤◌, ◌<◌, ◌≡◌, inl, inr, Bool, true, not, ◌&&◌, ◌||◌, List, [], ◌∷◌, Memᴰ,
  arith, leb, ◌==◌, if◌then◌else◌, any, any_mem, All, All-mem, leb→le, ==→eq, Bool-cases,
  &&-eq-true, ||-eq-true,
}
use rmarace_bench.Race.Access.{Point, Access}
use rmarace_bench.Race.Execution.{Execution, time, Edge, IsTimely, IsLegal, Overlap}

abbrev pub same_process_before : Point → Point → Bool
same_process_before p q = p.rank == q.rank && leb p.step q.step

pub covers : List Point → Point → Bool
covers front q = any (λ p. same_process_before p q) front

pub extend : List Point → Edge → List Point
extend front d =
    if covers front d.earlier && not (covers front d.later) then d.later ∷ front else front

pub sweep : ℕ → List Edge → List Point → List Point
sweep zero edges front = front
sweep (suc n) edges front = sweep n edges (foldl extend front edges)

abbrev pub rounds : ℕ
rounds = 4

-- Some end of the first access comes, by synchronisation, before some begin of the second.
unfoldable pub ordered : List Edge → Access → Access → Bool
unfolding any covers extend sweep
ordered edges a b =
    any (λ p. let front = sweep rounds edges (p ∷ []) in any (covers front) b.begins) a.ends

-- Some end of the access comes, by synchronisation, before the point.
unfoldable pub done_by : List Edge → Access → Point → Bool
unfolding any covers extend sweep
done_by edges a q = any (λ p. covers (sweep rounds edges (p ∷ [])) q) a.ends

module _ {edges : List Edge} {accesses : List Access} {e : Execution}
    (legal : IsLegal edges accesses e) where
  at_mono_add : (r k j : ℕ) → e.at r k ≤ e.at r (j + k)
  at_mono_add r k zero = rw zero-add (le_refl _)
  at_mono_add r k (suc j) = rw suc-add (omega (arith, legal.in_order r (j + k), at_mono_add r k j))

  at_mono : (p q : Point) → same_process_before p q ≡ true → time e p ≤ time e q
  at_mono p q h =
      let (ranks, steps) = &&-eq-true (p.rank == q.rank) (leb p.step q.step) h in
      let le = leb→le p.step q.step steps in
      let later : (q.step - p.step) + p.step ≡ q.step = omega arith in
      rw (← ==→eq p.rank q.rank ranks) (rw (← later) (at_mono_add p.rank p.step (q.step - p.step)))

  -- every point of the front comes at `p` or later
  abbrev IsAfter : Point → List Point → Type 0
  IsAfter p front = All (λ q. time e p ≤ time e q) front

  covers-le :
      (p q : Point) (front : List Point)
      → IsAfter p front
      → covers front q ≡ true
      → time e p ≤ time e q
  unfolding covers
  covers-le p q front h c =
      let (m, inside, before) = any_mem (λ m. same_process_before m q) front c in
      omega (arith, All-mem (λ q. time e p ≤ time e q) front h inside, at_mono m q before)

  extend-IsAfter :
      (p : Point) (front : List Point) (d : Edge)
      → time e d.earlier < time e d.later
      → IsAfter p front
      → IsAfter p (extend front d)
  unfolding extend
  extend-IsAfter p front d lt h =
      elim (Bool-cases (covers front d.earlier && not (covers front d.later))) [
        | inr skip ↦ rw skip h
        | inl add ↦
            let known = (&&-eq-true (covers front d.earlier) (not (covers front d.later)) add).0 in
            rw add (omega (arith, covers-le p d.earlier front h known), h)
      ]

  foldl-IsAfter :
      (p : Point) (front : List Point) (ds : List Edge)
      → All (λ d. time e d.earlier < time e d.later) ds
      → IsAfter p front
      → IsAfter p (foldl extend front ds)
  foldl-IsAfter p front [] lts h = h
  foldl-IsAfter p front (d ∷ ds) lts h =
      foldl-IsAfter p (extend front d) ds lts.1 (extend-IsAfter p front d lts.0 h)

  sweep-IsAfter :
      (n : ℕ) (p : Point) (front : List Point) → IsAfter p front → IsAfter p (sweep n edges front)
  unfolding sweep
  sweep-IsAfter zero p front h = h
  sweep-IsAfter (suc n) p front h =
      sweep-IsAfter n p (foldl extend front edges)
        (foldl-IsAfter p front edges legal.synchronised h)

  -- What `ordered` reports holds in every legal execution: the first access is finished before the
  -- second one starts.
  pub ordered-le :
      (a b : Access)
      → Memᴰ a accesses
      → Memᴰ b accesses
      → ordered edges a b ≡ true
      → e.finishes a ≤ e.starts b
  unfolding ordered
  ordered-le a b ma mb h =
      let (p, pm, hp) =
        any_mem (λ p. any (covers (sweep rounds edges (p ∷ []))) b.begins) a.ends h in
      let (q, qm, hq) = any_mem (covers (sweep rounds edges (p ∷ []))) b.begins hp in
      let ta = All-mem (IsTimely e) accesses legal.timely ma in
      let tb = All-mem (IsTimely e) accesses legal.timely mb in
      let front = sweep-IsAfter rounds p (p ∷ []) (le_refl _, tt) in
      omega (
        arith,
        All-mem (λ p. e.finishes a ≤ time e p) a.ends ta.before pm,
        covers-le p q (sweep rounds edges (p ∷ [])) front hq,
        All-mem (λ q. time e q ≤ e.starts b) b.begins tb.after qm,
      )

  pub ordered-not-Overlap :
      (a b : Access)
      → Memᴰ a accesses
      → Memᴰ b accesses
      → (ordered edges a b || ordered edges b a) ≡ true
      → ¬ Overlap e a b
  ordered-not-Overlap a b ma mb h o = elim (||-eq-true (ordered edges a b) (ordered edges b a) h) [
    | inl ab ↦ omega (arith, ordered-le a b ma mb ab)
    | inr ba ↦ omega (arith, ordered-le b a mb ma ba)
  ]

  pub done_by-le :
      (a : Access) (q : Point)
      → Memᴰ a accesses
      → done_by edges a q ≡ true
      → e.finishes a ≤ time e q
  unfolding done_by
  done_by-le a q ma h =
      let (p, pm, hp) = any_mem (λ p. covers (sweep rounds edges (p ∷ [])) q) a.ends h in
      let ta = All-mem (IsTimely e) accesses legal.timely ma in
      let front = sweep-IsAfter rounds p (p ∷ []) (le_refl _, tt) in
      omega (
        arith,
        All-mem (λ p. e.finishes a ≤ time e p) a.ends ta.before pm,
        covers-le p q (sweep rounds edges (p ∷ [])) front hp,
      )
