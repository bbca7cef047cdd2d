-- ===== src/TestCase.antt =====
-- A test as a value: its file, its label and its `main`; and what its label claims, given what the
-- rules of its programming model make of the traces of its processes.
use rmarace_bench.Base.{
  Memᴰ, all, all_mem, ℕ, String, ◌≡◌, ◌≢◌, Bool, true, not, arith, ◌&&◌, none, some, List, map,
  ◌==◌, ==→eq, &&-eq-true,
}
use rmarace_bench.Race.Execution.{Behaviour}
use rmarace_bench.Race.Access.{Site}
use rmarace_bench.Race.Label.{
  RaceKind, AccessKind, no_race, no_race?, Label, LabelHolds, label?, label?-LabelHolds,
  unlabelled?, unlabelled?-not_LabelHolds,
}
use rmarace_bench.Program.{Action, Run, trace_of, ranks}

-- `proc_num` is the number of processes that `main` wants; `main` takes a rank and a size.
pub record TestCase (C : Type 0) : Type 0 where
  pub file : String
  pub label : Label
  pub proc_num : ℕ
  pub main : ℕ → ℕ → Run C (Unit {0})

abbrev pub test : {C : Type 0} → String → Label → ℕ → (ℕ → ℕ → Run C (Unit {0})) → TestCase C
test file label n main = record { file = file; label = label; proc_num = n; main = main }

-- "RACE_KIND": "none", "NPROCS"; an ACCESS_SET without a RACE_PAIR names no accesses
abbrev pub quiet : ℕ → Label
quiet n = record { race_kind = no_race; access_set = none; race_pair = none; nprocs = n }

-- "RACE_KIND", "ACCESS_SET": ["k","l"], "RACE_PAIR": ["A@i","B@j"], "NPROCS"
abbrev pub racy : RaceKind → AccessKind → AccessKind → String → ℕ → String → ℕ → ℕ → Label
racy kind k l a i b j n = record {
  race_kind = kind;
  access_set = some (k, l);
  race_pair = some (record { name = a; line = i }, record { name = b; line = j });
  nprocs = n;
}

-- What the process of a rank does in a run with as many processes as the label says.
unfoldable pub trace_in : {C : Type 0} → TestCase C → ℕ → List (Action C)
trace_in t r = trace_of (t.main r t.label.nprocs)

abbrev pub pair_of : String → ℕ → String → ℕ → Site × Site
pair_of a i b j = (record { name = a; line = i }, record { name = b; line = j })

module _ {C : Type 0} (rules : List (List (Action C)) → Behaviour) where
  unfoldable pub behaviour_of : TestCase C → Behaviour
  unfolding trace_in
  behaviour_of t = rules (map (trace_in t) (ranks t.label.nprocs 0))

  -- The label holds, and it asks for as many processes as `main` does.
  pub record IsRight (t : TestCase C) : Type 0 where
    pub label_holds : LabelHolds t.label (behaviour_of t)
    pub as_many : t.label.nprocs ≡ t.proc_num

  unfoldable pub right? : TestCase C → Bool
  unfolding behaviour_of label?
  right? t = label? t.label (behaviour_of t) && t.label.nprocs == t.proc_num

  pub right?-IsRight : (t : TestCase C) → right? t ≡ true → IsRight t
  unfolding right?
  right?-IsRight t h =
      let (label, size) = &&-eq-true (label? t.label (behaviour_of t)) _ h in
      record {
        label_holds = label?-LabelHolds t.label (behaviour_of t) label;
        as_many = ==→eq t.label.nprocs t.proc_num size;
      }

  -- From a run of the test over a list to each of its members.
  pub right?-all :
      (ts : List (TestCase C)) → all right? ts ≡ true → (t : TestCase C) → Memᴰ t ts → IsRight t
  right?-all ts h t m = right?-IsRight t (all_mem right? ts h m)

  -- The label as it would be with another pair.
  abbrev pub with_pair : Label → Site × Site → Label
  with_pair l p = record l { race_pair = some p }

  -- The label does not hold, but it would with another pair.
  pub record IsMisnamed (t : TestCase C) (p : Site × Site) : Type 0 where
    pub label_fails : ¬ LabelHolds t.label (behaviour_of t)
    pub corrected_holds : LabelHolds (with_pair t.label p) (behaviour_of t)

  unfoldable pub misnamed? : TestCase C × (Site × Site) → Bool
  unfolding behaviour_of label? unlabelled?
  misnamed? (t, p) =
      not (no_race? t.label.race_kind)
      && (unlabelled? t.label (behaviour_of t) && label? (with_pair t.label p) (behaviour_of t))

  pub misnamed?-IsMisnamed :
      (t : TestCase C) (p : Site × Site) → misnamed? (t, p) ≡ true → IsMisnamed t p
  unfolding misnamed?
  misnamed?-IsMisnamed t p h =
      let (racy, rest) = &&-eq-true (not (no_race? t.label.race_kind)) _ h in
      let (fails, holds) = &&-eq-true (unlabelled? t.label (behaviour_of t)) _ rest in
      record {
        label_fails = unlabelled?-not_LabelHolds t.label (behaviour_of t) (ground arith) fails;
        corrected_holds = label?-LabelHolds (with_pair t.label p) (behaviour_of t) holds;
      }

  pub misnamed?-all :
      (ts : List (TestCase C × (Site × Site)))
      → all misnamed? ts ≡ true
      → (t : TestCase C) (p : Site × Site) → Memᴰ (t, p) ts
      → IsMisnamed t p
  misnamed?-all ts h t p m = misnamed?-IsMisnamed t p (all_mem misnamed? ts h m)

  -- The label as it would be with another ACCESS_SET.
  abbrev pub with_set : Label → AccessKind × AccessKind → Label
  with_set l s = record l { access_set = some s }

  -- No race that the label names is by accesses of the kinds in ACCESS_SET, but the label would
  -- hold with another set.
  pub record IsMisdescribed (t : TestCase C) (s : AccessKind × AccessKind) : Type 0 where
    pub label_fails : ¬ LabelHolds t.label (behaviour_of t)
    pub corrected_holds : LabelHolds (with_set t.label s) (behaviour_of t)

  unfoldable pub misdescribed? : TestCase C × (AccessKind × AccessKind) → Bool
  unfolding behaviour_of label? unlabelled?
  misdescribed? (t, s) =
      not (no_race? t.label.race_kind)
      && (unlabelled? t.label (behaviour_of t) && label? (with_set t.label s) (behaviour_of t))

  misdescribed?-IsMisdescribed :
      (t : TestCase C) (s : AccessKind × AccessKind)
      → misdescribed? (t, s) ≡ true
      → IsMisdescribed t s
  unfolding misdescribed?
  misdescribed?-IsMisdescribed t s h =
      let (racy, rest) = &&-eq-true (not (no_race? t.label.race_kind)) _ h in
      let (fails, holds) = &&-eq-true (unlabelled? t.label (behaviour_of t)) _ rest in
      record {
        label_fails = unlabelled?-not_LabelHolds t.label (behaviour_of t) (ground arith) fails;
        corrected_holds = label?-LabelHolds (with_set t.label s) (behaviour_of t) holds;
      }

  pub misdescribed?-all :
      (ts : List (TestCase C × (AccessKind × AccessKind)))
      → all misdescribed? ts ≡ true
      → (t : TestCase C) (s : AccessKind × AccessKind) → Memᴰ (t, s) ts
      → IsMisdescribed t s
  misdescribed?-all ts h t s m = misdescribed?-IsMisdescribed t s (all_mem misdescribed? ts h m)

  -- The label announces a race, but there is none in any execution.
  pub record IsQuiet (t : TestCase C) : Type 0 where
    pub announced : t.label.race_kind ≢ no_race
    pub label_fails : ¬ LabelHolds t.label (behaviour_of t)
    pub none_holds : LabelHolds (quiet t.label.nprocs) (behaviour_of t)

  unfoldable pub quiet? : TestCase C → Bool
  unfolding behaviour_of label? unlabelled?
  quiet? t =
      not (no_race? t.label.race_kind)
      && (unlabelled? t.label (behaviour_of t) && label? (quiet t.label.nprocs) (behaviour_of t))

  pub quiet?-IsQuiet : (t : TestCase C) → quiet? t ≡ true → IsQuiet t
  unfolding quiet?
  quiet?-IsQuiet t h =
      let (racy, rest) = &&-eq-true (not (no_race? t.label.race_kind)) _ h in
      let (fails, holds) = &&-eq-true (unlabelled? t.label (behaviour_of t)) _ rest in
      let announced : t.label.race_kind ≢ no_race = ground arith in
      record {
        announced = announced;
        label_fails = unlabelled?-not_LabelHolds t.label (behaviour_of t) announced fails;
        none_holds = label?-LabelHolds (quiet t.label.nprocs) (behaviour_of t) holds;
      }

  pub quiet?-all :
      (ts : List (TestCase C)) → all quiet? ts ≡ true → (t : TestCase C) → Memᴰ t ts → IsQuiet t
  quiet?-all ts h t m = quiet?-IsQuiet t (all_mem quiet? ts h m)
