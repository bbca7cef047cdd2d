-- ===== src/Usage.antt =====
-- Whether a test uses its library as it must: collective calls in one order, messages in pairs,
-- accesses within the memory that there is, and no memory given back under an operation.
use mathlib.Core.Path.{ap₂}
use text.Mathlib.TextEquality.{eq_iff}
use rmarace_bench.Base.{
  refl, inl, inr, ◌<◌, all_below, all_below-lt, &&-eq-true, ||-eq-true, ==→eq, leb→le, ℕ, ◌+◌, ◌≤◌,
  ◌≡◌, String, Bool, true, false, not, ◌&&◌, ◌||◌, Option, List, [], ◌∷◌, map, Memᴰ, ◌==◌, leb,
  str_eq, length, any, any_mem, ltb, ltb→lt, all, all_mem,
}
use rmarace_bench.Race.Access.{Access}
use rmarace_bench.Race.Execution.{Execution, Edge, Behaviour, IsLegal}
use rmarace_bench.Race.Order.{done_by, done_by-le}
use rmarace_bench.Program.{Action}
use rmarace_bench.Trace.{Trace, picked, steps_of}
use rmarace_bench.TestCase.{TestCase, trace_in, behaviour_of}

-- What there is to know of a library's calls.
pub record Library (C : Type 0) : Type 0 where
  pub rules : List (List (Action C)) → Behaviour
  pub collective : C → Option String  -- calls that all processes make in the same order
  pub sends_to : ℕ → C → Bool
  pub receives_from : ℕ → C → Bool
  pub gives_back : C → Bool  -- the call after which the memory may be gone
  pub concerns : ℕ → ℕ → Bool  -- that call of a process, the memory of another
  pub room : String → String → ℕ  -- the bytes of an object of a test, by the file of the test

same_names : List String → List String → Bool
same_names [] [] = true
same_names (c ∷ cs) (d ∷ ds) = str_eq c d && same_names cs ds
same_names _ _ = false

same_names-eq : (cs ds : List String) → same_names cs ds ≡ true → cs ≡ ds
unfolding same_names
same_names-eq [] [] h = refl
same_names-eq [] (d ∷ ds) h = cc
same_names-eq (c ∷ cs) [] h = cc
same_names-eq (c ∷ cs) (d ∷ ds) h =
    let (first, rest) = &&-eq-true (str_eq c d) (same_names cs ds) h in
    ap₂ ◌∷◌ ((eq_iff c d).0 first) (same_names-eq cs ds rest)

module _ {C : Type 0} (l : Library C) where
  unfoldable pub collectives : Trace C → List String
  unfolding picked
  collectives t = map (λ x. x.1) (picked l.collective t)

  -- how many messages one process sends to another, and how many that receives from it
  unfoldable pub messages : Trace C → Trace C → ℕ → ℕ → ℕ × ℕ
  unfolding steps_of
  messages here there r s =
      (length (steps_of (l.sends_to s) here), length (steps_of (l.receives_from r) there))

  unfoldable pub gone_at : Trace C → List ℕ
  unfolding steps_of
  gone_at t = steps_of l.gives_back t

  pub record IsWellFormed (t : TestCase C) : Type 0 where
    -- all processes make the same collective calls in the same order
    pub in_step :
        (r : ℕ) → r < t.label.nprocs → collectives (trace_in t r) ≡ collectives (trace_in t 0)
    -- as many messages are received as are sent, between any two processes
    pub balanced :
        (r s : ℕ)
        → r < t.label.nprocs
        → s < t.label.nprocs
        → (messages (trace_in t r) (trace_in t s) r s).0
          ≡ (messages (trace_in t r) (trace_in t s) r s).1
    -- no access is out of bounds
    pub in_bounds :
        (a : Access)
        → Memᴰ a (behaviour_of l.rules t).accesses
        → a.first + a.size ≤ l.room t.file a.object
    -- every one-sided access is over before any process that this concerns gives the memory back, in
    -- every execution
    pub closed :
        (edges : List Edge) (e : Execution)
        → Memᴰ edges (behaviour_of l.rules t).orders
        → IsLegal edges (behaviour_of l.rules t).accesses e
        → (a : Access) → Memᴰ a (behaviour_of l.rules t).accesses
        → a.at_target ≡ true
        → (r k : ℕ) → r < t.label.nprocs
        → l.concerns r a.owner ≡ true
        → Memᴰ k (gone_at (trace_in t r))
        → e.finishes a ≤ e.at r k

  module _ (t : TestCase C) where
    in_step? : ℕ → Bool
    in_step? r = same_names (collectives (trace_in t r)) (collectives (trace_in t 0))

    balanced? : ℕ → ℕ → Bool
    balanced? r s = let (m, n) = messages (trace_in t r) (trace_in t s) r s in m == n

    fits? : Access → Bool
    fits? a = leb (a.first + a.size) (l.room t.file a.object)

    closed? : Access → List Edge → ℕ → ℕ → Bool
    closed? a edges r k =
        not (a.at_target && l.concerns r a.owner) || done_by edges a (record { rank = r; step = k })

    all_closed? : Access → List Edge → ℕ → Bool
    unfolding closed?
    all_closed? a edges r = all (closed? a edges r) (gone_at (trace_in t r))

    unfoldable pub well_formed? : Bool
    unfolding all all_below in_step? balanced? fits? all_closed? same_names collectives messages
        gone_at behaviour_of done_by
    well_formed? =
        let n = t.label.nprocs in
        let b = behaviour_of l.rules t in
        (all_below n in_step? && all_below n (λ r. all_below n (balanced? r)))
        && (all fits? b.accesses
            && all (λ edges. all (λ a. all_below n (all_closed? a edges)) b.accesses) b.orders)

    -- an access that leaves its object
    abbrev pub Overruns : Type 0
    Overruns =
        (a : Access) × Memᴰ a (behaviour_of l.rules t).accesses
        × (l.room t.file a.object < a.first + a.size)

    leaves? : Access → Bool
    leaves? a = ltb (l.room t.file a.object) (a.first + a.size)

    unfoldable pub overruns? : Bool
    unfolding any leaves? behaviour_of
    overruns? = any leaves? (behaviour_of l.rules t).accesses

    pub overruns?-Overruns : overruns? ≡ true → Overruns
    unfolding overruns? leaves?
    overruns?-Overruns h =
        let (a, m, over) = any_mem leaves? (behaviour_of l.rules t).accesses h in
        (a, m, ltb→lt _ _ over)

    pub well_formed?-IsWellFormed : well_formed? ≡ true → IsWellFormed t
    unfolding well_formed? in_step? balanced? fits? closed? all_closed?
    well_formed?-IsWellFormed h =
        let n = t.label.nprocs in
        let b = behaviour_of l.rules t in
        let (calls, memory) =
          &&-eq-true (all_below n in_step? && all_below n (λ r. all_below n (balanced? r))) _ h in
        let (step, messages) = &&-eq-true (all_below n in_step?) _ calls in
        let (bounds, closing) = &&-eq-true (all fits? b.accesses) _ memory in
        record {
          in_step = λ r lt. same_names-eq _ _ (all_below-lt n in_step? r step lt);
          balanced = λ r s lr ls. ==→eq _ _ (
              all_below-lt n (balanced? r) s
                (all_below-lt n (λ r. all_below n (balanced? r)) r messages lr) ls);
          in_bounds = λ a m. leb→le _ _ (all_mem fits? b.accesses bounds m);
          closed = λ edges e adm legal a m target r k lr mine mk.
              let row =
                all_mem (λ edges. all (λ a. all_below n (all_closed? a edges)) b.accesses) b.orders
                  closing adm in
              let here =
                all_below-lt n (all_closed? a edges) r
                  (all_mem (λ a. all_below n (all_closed? a edges)) b.accesses row m) lr in
              elim (||-eq-true (not (a.at_target && l.concerns r a.owner)) _
                (all_mem (closed? a edges r) (gone_at (trace_in t r)) here mk)) [
                  | inl own ↦ cc (target, mine)
                  | inr done ↦ done_by-le legal a (record { rank = r; step = k }) m done
                ];
        }

  pub well_formed?-all :
      (ts : List (TestCase C))
      → all well_formed? ts ≡ true
      → (t : TestCase C) → Memᴰ t ts
      → IsWellFormed t
  well_formed?-all ts h t m = well_formed?-IsWellFormed t (all_mem well_formed? ts h m)
