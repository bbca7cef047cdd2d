-- ===== src/Race/Label.antt =====
-- The labels in the comment at the head of each test (`RACE_KIND`, `ACCESS_SET`, `RACE_PAIR`, `NPROCS`), what it
-- means that a label is right, and a test that decides it.
use rmarace_bench.Base.{
  ℕ, ◌≡◌, ◌≢◌, inl, inr, Bool, true, false, not, ◌&&◌, ◌||◌, Option, none, some, List, [], Memᴰ,
  arith, str_eq, if◌then◌else◌, all, any, all_mem, any_mem, &&-eq-true, ||-eq-true,
}
use rmarace_bench.Race.Access.{
  Mode, read, write, atomic_read, atomic_update, Site, Access, same_site, conflict,
}
use rmarace_bench.Race.Execution.{Execution, Edge, Behaviour, IsLegal, Overlap}
use rmarace_bench.Race.Order.{ordered, ordered-not-Overlap}
use rmarace_bench.Race.Schedule.{
  execution_of, relax_all, schedule, legal?, overlap?, legal?-IsLegal, overlap?-Overlap,
}

pub data RaceKind : Type 0 where
  no_race local_race remote_race : RaceKind

-- What ACCESS_SET says of an access: that a one-sided call makes it at its target, or to a buffer
-- of the process that calls it, or that the process makes it itself.
pub data AccessKind : Type 0 where
  rma_read rma_write rma_atomic_read rma_atomic_write : AccessKind
  buffer_read buffer_write local_load local_store : AccessKind

pub record Label : Type 0 where
  pub race_kind : RaceKind
  pub access_set : Option (AccessKind × AccessKind)
  pub race_pair : Option (Site × Site)
  pub nprocs : ℕ

-- Two accesses that conflict are in progress together in some legal execution.
pub record Race (b : Behaviour) (x y : Access) : Type 0 where
  pub edges : List Edge
  pub admitted : Memᴰ edges b.orders
  pub execution : Execution
  pub legal : IsLegal edges b.accesses execution
  pub left : Memᴰ x b.accesses
  pub right : Memᴰ y b.accesses
  pub conflicting : conflict x y ≡ true
  pub overlapping : Overlap execution x y

-- A race is remote if one of its accesses is made by a one-sided call at the target, else local.
abbrev pub kind_fits : RaceKind → Access → Access → Bool
kind_fits no_race x y = false
kind_fits local_race x y = not (x.at_target || y.at_target)
kind_fits remote_race x y = x.at_target || y.at_target

pub pair_fits : Option (Site × Site) → Access → Access → Bool
pair_fits none x y = false
pair_fits (some (s, t)) x y =
    (same_site s x.site && same_site t y.site) || (same_site t x.site && same_site s y.site)

abbrev target_kind : Mode → AccessKind
target_kind read = rma_read
target_kind write = rma_write
target_kind (atomic_read _) = rma_atomic_read
target_kind (atomic_update _) = rma_atomic_write

abbrev buffer_kind : Mode → AccessKind
buffer_kind read = buffer_read
buffer_kind (atomic_read _) = buffer_read
buffer_kind _ = buffer_write

abbrev pub kind_of : Access → AccessKind
kind_of x =
    if x.at_target
    then target_kind x.mode
    else if str_eq x.site.name "LOAD"
    then local_load
    else if str_eq x.site.name "STORE"
    then local_store
    else buffer_kind x.mode

abbrev same_kind : AccessKind → AccessKind → Bool
same_kind rma_read rma_read = true
same_kind rma_write rma_write = true
same_kind rma_atomic_read rma_atomic_read = true
same_kind rma_atomic_write rma_atomic_write = true
same_kind buffer_read buffer_read = true
same_kind buffer_write buffer_write = true
same_kind local_load local_load = true
same_kind local_store local_store = true
same_kind _ _ = false

abbrev set_fits : Option (AccessKind × AccessKind) → Access → Access → Bool
set_fits none x y = true
set_fits (some (j, k)) x y =
    (same_kind j (kind_of x) && same_kind k (kind_of y))
    || (same_kind k (kind_of x) && same_kind j (kind_of y))

-- The label announces a race between these two, of these kinds.
unfoldable pub names_race : Label → Access → Access → Bool
unfolding pair_fits
names_race l x y =
    kind_fits l.race_kind x y && (pair_fits l.race_pair x y && set_fits l.access_set x y)

-- A race that the label announces can be shown.
abbrev pub NamedRace : Label → Behaviour → Type 0
NamedRace l b = (x : Access) × (y : Access) × Race b x y × (names_race l x y ≡ true)

-- The test can run to its end, every race that it can show is between the two labelled statements,
-- and if a race is announced, one of its kind between these two can be shown, by two accesses of
-- the kinds in ACCESS_SET.
pub record LabelHolds (l : Label) (b : Behaviour) : Type 0 where
  pub runs :
      (edges : List Edge) × (e : Execution) × Memᴰ edges b.orders × IsLegal edges b.accesses e
  pub only : (x y : Access) → Race b x y → pair_fits l.race_pair x y ≡ true
  pub occurs : l.race_kind ≢ no_race → NamedRace l b

abbrev pub no_race? : RaceKind → Bool
no_race? no_race = true
no_race? _ = false

module _ (l : Label) (b : Behaviour) where
  runs_in : List Edge → Bool
  runs_in edges = legal? edges b.accesses (execution_of (relax_all 4 edges []))

  excused : Access → Access → Bool
  excused x y =
      not (conflict x y)
      || (pair_fits l.race_pair x y
          || all (λ edges. ordered edges x y || ordered edges y x) b.orders)

  shown_in : Access → Access → List Edge → Bool
  shown_in x y edges =
      let e = execution_of (schedule edges x y) in legal? edges b.accesses e && overlap? e x y

  shown : Access → Access → Bool
  shown x y = (conflict x y && names_race l x y) && any (shown_in x y) b.orders

  unfoldable pub named_race? : Bool
  unfolding shown shown_in any conflict names_race legal? overlap? execution_of schedule
  named_race? = any (λ x. any (shown x) b.accesses) b.accesses

  unfoldable pub label? : Bool
  unfolding runs_in excused all any conflict pair_fits ordered legal? execution_of relax_all
      named_race?
  label? =
      any runs_in b.orders
      && (all (λ x. all (excused x) b.accesses) b.accesses && (no_race? l.race_kind || named_race?))

  excused-pair_fits :
      (x y : Access) → excused x y ≡ true → Race b x y → pair_fits l.race_pair x y ≡ true
  unfolding excused
  excused-pair_fits x y h race = elim (||-eq-true (not (conflict x y)) _ h) [
    | inl apart ↦ cc (race.conflicting)
    | inr rest ↦ elim (||-eq-true (pair_fits l.race_pair x y) _ rest) [
      | inl named ↦ named
      | inr ordered_all ↦ absurd (
          ordered-not-Overlap race.legal x y race.left race.right
            (all_mem (λ edges. ordered edges x y || ordered edges y x) b.orders ordered_all
              race.admitted)
            race.overlapping)
    ]
  ]

  shown-Race :
      (x y : Access)
      → Memᴰ x b.accesses
      → Memᴰ y b.accesses
      → shown x y ≡ true
      → Race b x y × (names_race l x y ≡ true)
  unfolding shown shown_in
  shown-Race x y mx my h =
      let (found, orders) = &&-eq-true (conflict x y && names_race l x y) _ h in
      let (clash, named) = &&-eq-true (conflict x y) (names_race l x y) found in
      let (edges, admitted, fine) = any_mem (shown_in x y) b.orders orders in
      let e = execution_of (schedule edges x y) in
      let (legal, over) = &&-eq-true (legal? edges b.accesses e) (overlap? e x y) fine in
      (
        record {
          edges = edges;
          admitted = admitted;
          execution = e;
          legal = legal?-IsLegal edges b.accesses (schedule edges x y) legal;
          left = mx;
          right = my;
          conflicting = clash;
          overlapping = overlap?-Overlap e x y over;
        },
        named,
      )

  pub named_race?-NamedRace : named_race? ≡ true → NamedRace l b
  unfolding named_race?
  named_race?-NamedRace h =
      let (x, mx, hx) = any_mem (λ x. any (shown x) b.accesses) b.accesses h in
      let (y, my, hy) = any_mem (shown x) b.accesses hx in
      let (race, named) = shown-Race x y mx my hy in (x, y, race, named)

  run_found :
      any runs_in b.orders ≡ true
      → (edges : List Edge) × (e : Execution) × Memᴰ edges b.orders × IsLegal edges b.accesses e
  unfolding runs_in
  run_found h =
      let (edges, admitted, fine) = any_mem runs_in b.orders h in
      (
        edges,
        execution_of (relax_all 4 edges []),
        admitted,
        legal?-IsLegal edges b.accesses (relax_all 4 edges []) fine,
      )

  no_race?-eq : no_race? l.race_kind ≡ true → l.race_kind ≡ no_race
  no_race?-eq h = ground arith

  -- The test for a label is sound.
  pub label?-LabelHolds : label? ≡ true → LabelHolds l b
  unfolding label?
  label?-LabelHolds h =
      let (runs, rest) = &&-eq-true (any runs_in b.orders) _ h in
      let (only, occurs) = &&-eq-true (all (λ x. all (excused x) b.accesses) b.accesses) _ rest in
      record {
        runs = run_found runs;
        only = λ x y race.
            let row = all_mem (λ x. all (excused x) b.accesses) b.accesses only race.left in
            excused-pair_fits x y (all_mem (excused x) b.accesses row race.right) race;
        occurs = λ ne. elim (||-eq-true (no_race? l.race_kind) _ occurs) [
          | inl quiet ↦ absurd (ne (no_race?-eq quiet))
          | inr found ↦ named_race?-NamedRace found
        ];
      }

  -- No race of the announced kind between the two labelled statements.
  unfoldable pub unlabelled? : Bool
  unfolding all conflict names_race ordered
  unlabelled? =
      all
        (λ x.
          all
            (λ y.
              not (conflict x y && names_race l x y)
              || all (λ edges. ordered edges x y || ordered edges y x) b.orders)
            b.accesses)
        b.accesses

  pub unlabelled?-not_LabelHolds : l.race_kind ≢ no_race → unlabelled? ≡ true → ¬ LabelHolds l b
  unfolding unlabelled?
  unlabelled?-not_LabelHolds ne h holds =
      let (x, y, race, named) = holds.occurs ne in
      let row = all_mem _ b.accesses h race.left in
      elim (||-eq-true (not (conflict x y && names_race l x y)) _
        (all_mem _ b.accesses row race.right)) [
          | inl apart ↦ ground (arith, race.conflicting)
          | inr ordered_all ↦
              ordered-not-Overlap race.legal x y race.left race.right
                (all_mem (λ edges. ordered edges x y || ordered edges y x) b.orders ordered_all
                  race.admitted)
                race.overlapping
        ]

-- Where a race can be shown, a label without a pair does not hold.
pub Race-not_LabelHolds :
    {l : Label} {b : Behaviour} {x y : Access} → l.race_pair ≡ none → Race b x y → ¬ LabelHolds l b
unfolding pair_fits
Race-not_LabelHolds quiet race holds = cc (quiet, holds.only _ _ race)
