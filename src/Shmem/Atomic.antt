-- ===== src/Shmem/Atomic.antt =====
-- Two atomic operations on one target: tests of SHMEM/atomic.
use rmarace_bench.Base.{List, [], ◌∷◌, ◌==◌}
use rmarace_bench.Race.Access.{float, double, long}
use rmarace_bench.Race.Label.{remote_race, rma_atomic_write}
use rmarace_bench.Program.{◌>>◌, when, addr}
use rmarace_bench.TestCase.{TestCase, test, racy, quiet}
use rmarace_bench.Shmem.Call.{Call, shmem}
use rmarace_bench.Shmem.Boilerplate.{remote, prologue, epilogue}

-- SHMEM/atomic/002-shmem-atomic-same-ctx-remote-no.c
unfoldable pub same_ctx_remote_no : TestCase Call
unfolding prologue epilogue
same_ctx_remote_no =
    test "SHMEM/atomic/002-shmem-atomic-same-ctx-remote-no.c" (quiet 3) 3 λ my_pe num_pe. do
      prologue 25 0 3 my_pe num_pe
      shmem 40 (Call.ctx_create "ctx")
      when (my_pe == 0) do shmem 44 (Call.ctx_atomic_add "ctx" remote 1 1)
      when (my_pe == 2) do shmem 49 (Call.ctx_atomic_add "ctx" remote 1 1)
      shmem 52 Call.barrier_all
      epilogue 54

-- SHMEM/atomic/003-shmem-atomic-same-domain-remote-no.c
unfoldable pub same_domain_remote_no : TestCase Call
unfolding prologue epilogue
same_domain_remote_no =
    test "SHMEM/atomic/003-shmem-atomic-same-domain-remote-no.c" (quiet 3) 3 λ my_pe num_pe. do
      prologue 25 0 3 my_pe num_pe
      shmem 40 (Call.ctx_create "ctx")
      shmem 41 (Call.ctx_create "ctx2")
      when (my_pe == 0) do shmem 45 (Call.ctx_atomic_add "ctx" remote 1 1)
      when (my_pe == 2) do shmem 50 (Call.ctx_atomic_add "ctx2" remote 1 1)
      shmem 53 Call.barrier_all
      epilogue 55

-- SHMEM/atomic/004-shmem-atomic-int-int-remote-no.c
unfoldable pub int_int_remote_no : TestCase Call
unfolding prologue epilogue
int_int_remote_no =
    test "SHMEM/atomic/004-shmem-atomic-int-int-remote-no.c" (quiet 3) 3 λ my_pe num_pe. do
      prologue 25 0 3 my_pe num_pe
      when (my_pe == 0) do shmem 40 (Call.atomic_add remote 1 1)
      when (my_pe == 2) do shmem 44 (Call.atomic_add remote 1 1)
      shmem 47 Call.barrier_all
      epilogue 49

-- SHMEM/atomic/005-shmem-atomic-int-int-sameorigin-remote-no.c
unfoldable pub int_int_sameorigin_remote_no : TestCase Call
unfolding prologue epilogue
int_int_sameorigin_remote_no =
    test "SHMEM/atomic/005-shmem-atomic-int-int-sameorigin-remote-no.c" (quiet 3) 3 λ my_pe num_pe.
      do
        prologue 25 0 3 my_pe num_pe
        when (my_pe == 0)
            do shmem 40 (Call.atomic_add remote 1 1); shmem 41 (Call.atomic_add remote 1 1)
        shmem 43 Call.barrier_all
        epilogue 45

-- SHMEM/atomic/006-shmem-atomic-double-long-remote-yes.c
unfoldable pub double_long_remote_yes : TestCase Call
unfolding prologue epilogue
double_long_remote_yes =
    test "SHMEM/atomic/006-shmem-atomic-double-long-remote-yes.c"
      (racy remote_race rma_atomic_write rma_atomic_write "shmem_int_atomic_add" 44
        "shmem_int_atomic_add" 49 3)
      3
      λ my_pe num_pe. do
        prologue 26 0 3 my_pe num_pe
        when (my_pe == 0) do shmem 44 (Call.atomic_set_as double (addr "val") 1)
        when (my_pe == 2) do shmem 49 (Call.atomic_set_as long (addr "val") 1)
        shmem 52 Call.barrier_all
        epilogue 54

-- SHMEM/atomic/007-shmem-atomic-int-long-remote-yes.c
unfoldable pub int_long_remote_yes : TestCase Call
unfolding prologue epilogue
int_long_remote_yes =
    test "SHMEM/atomic/007-shmem-atomic-int-long-remote-yes.c"
      (racy remote_race rma_atomic_write rma_atomic_write "shmem_int_atomic_add" 44
        "shmem_int_atomic_add" 49 3)
      3
      λ my_pe num_pe. do
        prologue 26 0 3 my_pe num_pe
        when (my_pe == 0) do shmem 44 (Call.atomic_add (addr "value") 1 1)
        when (my_pe == 2) do shmem 49 (Call.atomic_add_as long (addr "value") 1)
        shmem 52 Call.barrier_all
        epilogue 54

-- SHMEM/atomic/008-shmem-atomic-int-float-remote-yes.c
unfoldable pub int_float_remote_yes : TestCase Call
unfolding prologue epilogue
int_float_remote_yes =
    test "SHMEM/atomic/008-shmem-atomic-int-float-remote-yes.c"
      (racy remote_race rma_atomic_write rma_atomic_write "shmem_int_atomic_add" 42
        "shmem_int_atomic_add" 47 3)
      3
      λ my_pe num_pe. do
        prologue 26 0 3 my_pe num_pe
        when (my_pe == 0) do shmem 42 (Call.atomic_set remote 1 1)
        when (my_pe == 2) do shmem 47 (Call.atomic_set_as float remote 1)
        shmem 50 Call.barrier_all
        epilogue 52

-- SHMEM/atomic/009-shmem-atomic-int-float-sameorigin-remote-yes.c
unfoldable pub int_float_sameorigin_remote_yes : TestCase Call
unfolding prologue epilogue
int_float_sameorigin_remote_yes =
    test "SHMEM/atomic/009-shmem-atomic-int-float-sameorigin-remote-yes.c"
      (racy remote_race rma_atomic_write rma_atomic_write "shmem_int_atomic_add" 42
        "shmem_int_atomic_add" 44 3)
      3
      λ my_pe num_pe. do
        prologue 26 0 3 my_pe num_pe
        when (my_pe == 0)
            do shmem 42 (Call.atomic_set remote 1 1); shmem 44 (Call.atomic_set_as float remote 1)
        shmem 46 Call.barrier_all
        epilogue 48

abbrev pub atomic_tests : List (TestCase Call)
atomic_tests = int_int_remote_no ∷ int_int_sameorigin_remote_no ∷ []
