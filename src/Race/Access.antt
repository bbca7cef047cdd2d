-- ===== src/Race/Access.antt =====
-- Accesses to memory, and which of them conflict. An access is a load or store of the source, or
-- what a one-sided call does to a buffer of the origin or of the target.
use rmarace_bench.Base.{
  ℕ, ◌+◌, ◌*◌, ◌%◌, String, Bool, true, false, not, ◌&&◌, List, str_eq, ltb, ◌==◌, if◌then◌else◌,
}

-- A place in a process: the moment before its action number `step` (so `step + 1` is the moment
-- after that action).
pub record Point : Type 0 where
  pub rank : ℕ
  pub step : ℕ

-- What a statement is called in the labels, `MPI_Put@56`: its kind and its line.
pub record Site : Type 0 where
  pub name : String
  pub line : ℕ

-- The C types that the tests access; `long` is also gaspi_atomic_value_t.
pub data Datatype : Type 0 where
  int short float double long : Datatype
  contiguous : (count : ℕ) (of : Datatype) → Datatype  -- MPI_Type_contiguous

abbrev pub type_eq : Datatype → Datatype → Bool
type_eq int int = true
type_eq short short = true
type_eq float float = true
type_eq double double = true
type_eq long long = true
type_eq _ _ = false

-- sizeof, on the platforms that the test suite is run on
abbrev pub size_of : Datatype → ℕ
size_of int = 4
size_of short = 2
size_of float = 4
size_of double = 8
size_of long = 8
size_of (contiguous n t) = n * size_of t

-- the type of the elements
abbrev pub basic : Datatype → Datatype
basic (contiguous n t) = basic t
basic t = t

-- `atomic_read` and `atomic_update` are the accesses of accumulate operations and of atomics.
pub data Mode : Type 0 where
  read write : Mode
  atomic_read atomic_update : Datatype → Mode

-- Atomic accesses are so to one another element by element: of one type, and a whole number of
-- elements apart.
abbrev pub same_elements : Datatype → ℕ → Datatype → ℕ → Bool
same_elements t m u n =
    type_eq (basic t) (basic u) && m % size_of (basic t) == n % size_of (basic t)

abbrev pub modes_clash : Mode → ℕ → Mode → ℕ → Bool
modes_clash read _ read _ = false
modes_clash read _ (atomic_read _) _ = false
modes_clash (atomic_read _) _ read _ = false
modes_clash (atomic_read _) _ (atomic_read _) _ = false
modes_clash (atomic_read t) m (atomic_update u) n = not (same_elements t m u n)
modes_clash (atomic_update t) m (atomic_read u) n = not (same_elements t m u n)
modes_clash (atomic_update t) m (atomic_update u) n = not (same_elements t m u n)
modes_clash _ _ _ _ = true

pub record Access : Type 0 where
  pub issue : Point  -- the action that makes the access
  pub site : Site
  pub owner : ℕ  -- the process whose memory is accessed
  pub object : String  -- the variable, or the window
  pub at_target : Bool  -- made by a one-sided call in the memory of its target
  pub first : ℕ  -- in bytes, from the start of the object
  pub size : ℕ
  pub mode : Mode
  pub begins : List Point  -- the access begins after each of these
  pub ends : List Point  -- the access is finished before each of these

abbrev pub same_point : Point → Point → Bool
same_point p q = p.rank == q.rank && p.step == q.step

abbrev pub same_site : Site → Site → Bool
same_site s t = s.line == t.line && str_eq s.name t.name

-- The same bytes of one object, by two actions, and the modes are not compatible.
unfoldable pub conflict : Access → Access → Bool
conflict a b =
    if a.owner == b.owner
      && modes_clash a.mode a.first b.mode b.first
      && not (same_point a.issue b.issue)
    then str_eq a.object b.object
      && ltb a.first (b.first + b.size)
      && ltb b.first (a.first + a.size)
    else false
