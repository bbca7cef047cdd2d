-- ===== src/Program.antt =====
-- The statements of the tests. A process is a trace of actions: its loads and stores of variables
-- that a one-sided call may touch as well, and its calls of the communication library with their
-- arguments. The libraries are not modelled: a call is only recorded, as a value of the type `C`
-- that each programming model has for its calls.
use mathlib.Core.List.{reverse}
use rmarace_bench.Base.{
  ℕ, zero, suc, ◌+◌, ◌*◌, String, Bool, Option, none, some, List, [], ◌∷◌, if◌then◌else◌,
}
use rmarace_bench.Race.Access.{Datatype, int, size_of}

-- An address in the memory of the running process: a byte of a variable, or of a window.
pub record Ptr : Type 0 where
  pub object : String
  pub offset : ℕ

-- `&x`
abbrev pub addr : String → Ptr
addr x = record { object = x; offset = 0 }

-- `&p[i]` for `int* p`
abbrev pub elem : Ptr → ℕ → Ptr
elem p i = record p { offset = p.offset + i * size_of int }

-- Where two threads of a process part and meet, and what my_signal and my_wait do with a flag.
pub data Directive : Type 0 where
  fork next join : Directive  -- the actions of one thread follow, those of the other, those of both
  raise await : (flag : String) → Directive

-- An action, with its line in the source.
pub data Action (C : Type 0) : Type 0 where
  load : (line : ℕ) (type : Datatype) (from : Ptr) → Action C
  store :  -- a constant, or `none` for another value
      (line : ℕ) (type : Datatype) (to : Ptr) (value : Option ℕ) → Action C
  call : (line : ℕ) (what : C) → Action C
  exit : (line : ℕ) (what : C) → Action C  -- a call that ends the process
  thread : (line : ℕ) (what : Directive) → Action C

-- A run of C code: it yields a value and adds its actions to those before it, the latest first.
abbrev pub Run : Type 0 → Type 0 → Type 0
Run C A = List (Action C) → A × List (Action C)

infixl 5 ◌>>=◌ ◌>>◌
abbrev pub ◌>>=◌ : {C A B : Type 0} → Run C A → (A → Run C B) → Run C B
◌>>=◌ m f past = let (a, now) = m past in f a now

abbrev pub ◌>>◌ : {C B : Type 0} → Run C (Unit {0}) → Run C B → Run C B
m >> k = m >>= λ _. k

module _ {C : Type 0} where
  abbrev pub skip : Run C (Unit {0})
  skip past = (tt, past)

  abbrev pub act : Action C → Run C (Unit {0})
  act a past = (tt, a ∷ past)

  abbrev pub load_int : ℕ → Ptr → Run C (Unit {0})
  load_int line p = act (Action.load line int p)

  abbrev pub load_value : ℕ → Datatype → Ptr → Run C (Unit {0})
  load_value line t p = act (Action.load line t p)

  abbrev pub store_int : ℕ → Ptr → ℕ → Run C (Unit {0})
  store_int line p v = act (Action.store line int p (some v))

  -- `type p[] = { … }`, whose values are not kept
  abbrev pub store_array : ℕ → Datatype → Ptr → ℕ → Run C (Unit {0})
  store_array line t p zero past = (tt, past)
  store_array line t p (suc n) past =
      let (_, now) = store_array line t p n past in
      act (Action.store line t (record p { offset = p.offset + n * size_of t }) none) now

  abbrev pub store_result : ℕ → Ptr → Run C (Unit {0})
  store_result line p = act (Action.store line int p none)

  abbrev pub perform : ℕ → C → Run C (Unit {0})
  perform line c = act (Action.call line c)

  abbrev pub leave : ℕ → C → Run C (Unit {0})
  leave line c = act (Action.exit line c)

  -- `if (b) { … }`
  abbrev pub when : Bool → Run C (Unit {0}) → Run C (Unit {0})
  when b m = if b then m else skip

  -- `for (i = start; i < start + n; i++)`
  abbrev pub for_range : ℕ → ℕ → (ℕ → Run C (Unit {0})) → Run C (Unit {0})
  for_range zero start body past = (tt, past)
  for_range (suc n) start body past =
      let (_, now) = body start past in for_range n (suc start) body now

  -- nothing comes after the end of a process
  abbrev until_exit : List (Action C) → List (Action C)
  until_exit [] = []
  until_exit (Action.exit l c ∷ t) = Action.exit l c ∷ []
  until_exit (a ∷ t) = let rest = until_exit t in a ∷ rest

  abbrev pub trace_of : Run C (Unit {0}) → List (Action C)
  trace_of m = until_exit (reverse (m []).1)

-- The ranks `start`, `start + 1`, …, `n` of them.
abbrev pub ranks : ℕ → ℕ → List ℕ
ranks zero start = []
ranks (suc n) start = start ∷ ranks n (suc start)
