-- ===== src/Threads/Constructs.antt =====
-- The OpenMP constructs of the tests, and their my_signal and my_wait. All teams have two threads.
-- Threads that wait at the end of a construct do nothing else meanwhile; a barrier in a parallel
-- region is where all its threads have come before any goes on, so that the region is one before it
-- and one after it.
use rmarace_bench.Base.{ℕ, String, ◌==◌}
use rmarace_bench.Program.{Directive, Action, Run, ◌>>◌, act, when, for_range}

module _ {C : Type 0} where
  abbrev directive : ℕ → Directive → Run C (Unit {0})
  directive line d = act (Action.thread line d)

  -- Two threads side by side, from one moment on; what follows waits for both.
  abbrev beside : ℕ → Run C (Unit {0}) → Run C (Unit {0}) → Run C (Unit {0})
  beside line a b = do
    directive line Directive.fork
    a
    directive line Directive.next
    b
    directive line Directive.join

  -- #pragma omp parallel num_threads(2), its body given the number of the thread
  abbrev pub parallel : ℕ → (ℕ → Run C (Unit {0})) → Run C (Unit {0})
  parallel line body = beside line (body 0) (body 1)

  -- the same, where all that the threads do is in constructs that share it out, or behind barriers
  abbrev pub team : ℕ → Run C (Unit {0}) → Run C (Unit {0})
  team line m = m

  -- what the threads do after a #pragma omp barrier, or after the implicit barrier of a construct
  abbrev pub after_barrier : ℕ → (ℕ → Run C (Unit {0})) → Run C (Unit {0})
  after_barrier line body = beside line (body 0) (body 1)

  -- #pragma omp master
  abbrev pub master : ℕ → Run C (Unit {0}) → Run C (Unit {0})
  master thread m = when (thread == 0) m

  -- #pragma omp single nowait: by the thread that comes first, which is called 0
  abbrev pub single_nowait : ℕ → Run C (Unit {0}) → Run C (Unit {0})
  single_nowait thread m = when (thread == 0) m

  -- #pragma omp single, the first construct of its region: by one thread, while the other waits
  abbrev pub single : Run C (Unit {0}) → Run C (Unit {0})
  single m = m

  -- #pragma omp sections, with one section, while the other thread waits
  abbrev pub section : Run C (Unit {0}) → Run C (Unit {0})
  section m = m

  -- #pragma omp sections, with two sections: by two threads, or by one in turn
  abbrev pub sections : ℕ → Run C (Unit {0}) → Run C (Unit {0}) → Run C (Unit {0})
  sections line a b = beside line a b

  -- #pragma omp for schedule(static, 1) with two iterations: one for each thread
  abbrev pub for_static : ℕ → (ℕ → Run C (Unit {0})) → Run C (Unit {0})
  for_static line body = beside line (body 0) (body 1)

  -- #pragma omp for ordered with two iterations that are #pragma omp ordered
  abbrev pub for_ordered : (ℕ → Run C (Unit {0})) → Run C (Unit {0})
  for_ordered body = for_range 2 0 body

  -- #pragma omp task, and what its creator does after it, until it waits for the task
  abbrev pub task : ℕ → Run C (Unit {0}) → Run C (Unit {0}) → Run C (Unit {0})
  task line t rest = beside line t rest

  -- (*s)++, atomically
  abbrev pub my_signal : ℕ → String → Run C (Unit {0})
  my_signal line flag = directive line (Directive.raise flag)

  -- A loop that ends after it has read `*s` as 1; the flag is 0 before its one my_signal.
  abbrev pub my_wait : ℕ → String → Run C (Unit {0})
  my_wait line flag = directive line (Directive.await flag)
