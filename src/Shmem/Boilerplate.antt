-- ===== src/Shmem/Boilerplate.antt =====
-- The code that all tests under SHMEM share, before and after the part under test. It comes from
-- templates/SHMEM/shmem-boilerplate.c.j2; lines are counted from the line `at` of `int main`, and
-- for the end of `main` from the line `at` of its last shmem_barrier_all.
use rmarace_bench.Base.{ℕ, ◌+◌, not, ◌==◌}
use rmarace_bench.Program.{Ptr, addr, Run, ◌>>◌, leave, when, load_int, store_int}
use rmarace_bench.Shmem.Call.{Call, shmem}

-- The variables of `main`: `remote` is static, so that it is symmetric, and that it has its value
-- before `main` starts.
abbrev pub remote : Ptr
remote = addr "remote"

abbrev pub localbuf : Ptr
localbuf = addr "localbuf"

-- `num_pe != PROC_NUM`: the test is started with the wrong number of processes, and
-- shmem_global_exit ends it. `shift` counts the declarations of further variables between
-- those of `main` and shmem_init.
unfoldable pub prologue : (at shift proc_num my_pe num_pe : ℕ) → Run Call (Unit {0})
prologue at shift proc_num my_pe num_pe = do
  store_int (at + 3) localbuf 1
  shmem (at + shift + 5) Call.init
  shmem (at + shift + 7) Call.n_pes
  shmem (at + shift + 8) Call.my_pe
  when (not (num_pe == proc_num)) (leave (at + shift + 12) Call.global_exit)

-- From the last shmem_barrier_all on.
unfoldable pub epilogue : (at : ℕ) → Run Call (Unit {0})
epilogue at = do
  shmem at Call.barrier_all
  load_int (at + 1) remote
  load_int (at + 1) localbuf
  shmem (at + 2) Call.finalize
