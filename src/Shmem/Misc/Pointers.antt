-- ===== src/Shmem/Misc/Pointers.antt =====
-- A local buffer with two names: tests of SHMEM/misc.
-- A pointer variable is a value of the model, and a function that writes one yields it; memcpy from
-- one to another copies it.
use rmarace_bench.Base.{List, [], ◌∷◌, ◌==◌}
use rmarace_bench.Race.Label.{local_race, buffer_write, local_load}
use rmarace_bench.Program.{Ptr, ◌>>◌, when, load_int}
use rmarace_bench.TestCase.{TestCase, test, racy, quiet}
use rmarace_bench.Shmem.Call.{Call, shmem}
use rmarace_bench.Shmem.Boilerplate.{remote, localbuf, prologue, epilogue}

-- SHMEM/misc/003-shmem-misc-putnbi-load-aliasing-local-no.c
unfoldable pub putnbi_load_aliasing_local_no : TestCase Call
unfolding prologue epilogue
putnbi_load_aliasing_local_no =
    test "SHMEM/misc/003-shmem-misc-putnbi-load-aliasing-local-no.c" (quiet 2) 2 λ my_pe num_pe. do
      let aliasgenerator : Ptr → Ptr = λ x. x
      prologue 24 0 2 my_pe num_pe
      shmem 39 Call.barrier_all
      let rem_ptr = remote
      let lbuf_ptr = localbuf
      let rem_ptr_alias = aliasgenerator rem_ptr
      let lbuf_ptr_alias = aliasgenerator lbuf_ptr
      when (my_pe == 0) do shmem 50 (Call.put_nbi rem_ptr lbuf_ptr 1 1); load_int 51 lbuf_ptr_alias
      epilogue 54

-- SHMEM/misc/004-shmem-misc-getnbi-load-aliasing-local-yes.c
unfoldable pub getnbi_load_aliasing_local_yes : TestCase Call
unfolding prologue epilogue
getnbi_load_aliasing_local_yes =
    test "SHMEM/misc/004-shmem-misc-getnbi-load-aliasing-local-yes.c"
      (racy local_race buffer_write local_load "shmem_int_get_nbi" 53 "LOAD" 55 2) 2
      λ my_pe num_pe. do
        let aliasgenerator : Ptr → Ptr = λ x. x
        prologue 25 0 2 my_pe num_pe
        shmem 40 Call.barrier_all
        let rem_ptr = remote
        let lbuf_ptr = localbuf
        let rem_ptr_alias = aliasgenerator rem_ptr
        let lbuf_ptr_alias = aliasgenerator lbuf_ptr
        when (my_pe == 0)
            do shmem 53 (Call.get_nbi lbuf_ptr rem_ptr 1 1); load_int 55 lbuf_ptr_alias
        epilogue 58

-- SHMEM/misc/005-shmem-misc-putnbi-load-retval-local-no.c
unfoldable pub putnbi_load_retval_local_no : TestCase Call
unfolding prologue epilogue
putnbi_load_retval_local_no =
    test "SHMEM/misc/005-shmem-misc-putnbi-load-retval-local-no.c" (quiet 2) 2 λ my_pe num_pe. do
      let aliasgenerator : Ptr → Ptr = λ x. x
      prologue 24 0 2 my_pe num_pe
      shmem 39 Call.barrier_all
      let rem_ptr = remote
      let lbuf_ptr = localbuf
      let rem_ptr_alias = aliasgenerator rem_ptr
      let lbuf_ptr_alias = aliasgenerator lbuf_ptr
      when (my_pe == 0) do shmem 50 (Call.put_nbi rem_ptr lbuf_ptr 1 1); load_int 51 lbuf_ptr_alias
      epilogue 54

-- SHMEM/misc/006-shmem-misc-getnbi-load-retval-local-yes.c
unfoldable pub getnbi_load_retval_local_yes : TestCase Call
unfolding prologue epilogue
getnbi_load_retval_local_yes =
    test "SHMEM/misc/006-shmem-misc-getnbi-load-retval-local-yes.c"
      (racy local_race buffer_write local_load "shmem_int_get_nbi" 53 "LOAD" 55 2) 2
      λ my_pe num_pe. do
        let aliasgenerator : Ptr → Ptr = λ x. x
        prologue 25 0 2 my_pe num_pe
        shmem 40 Call.barrier_all
        let rem_ptr = remote
        let lbuf_ptr = localbuf
        let rem_ptr_alias = aliasgenerator rem_ptr
        let lbuf_ptr_alias = aliasgenerator lbuf_ptr
        when (my_pe == 0)
            do shmem 53 (Call.get_nbi lbuf_ptr rem_ptr 1 1); load_int 55 lbuf_ptr_alias
        epilogue 58

-- SHMEM/misc/007-shmem-misc-putnbi-load-memcpy-local-no.c
unfoldable pub putnbi_load_memcpy_local_no : TestCase Call
unfolding prologue epilogue
putnbi_load_memcpy_local_no =
    test "SHMEM/misc/007-shmem-misc-putnbi-load-memcpy-local-no.c" (quiet 2) 2 λ my_pe num_pe. do
      prologue 23 0 2 my_pe num_pe
      shmem 38 Call.barrier_all
      let rem_ptr = remote
      let lbuf_ptr = localbuf
      let rem_ptr_alias = rem_ptr
      let lbuf_ptr_alias = lbuf_ptr
      when (my_pe == 0) do shmem 49 (Call.put_nbi rem_ptr lbuf_ptr 1 1); load_int 50 lbuf_ptr_alias
      epilogue 53

-- SHMEM/misc/008-shmem-misc-getnbi-load-memcpy-local-yes.c
unfoldable pub getnbi_load_memcpy_local_yes : TestCase Call
unfolding prologue epilogue
getnbi_load_memcpy_local_yes =
    test "SHMEM/misc/008-shmem-misc-getnbi-load-memcpy-local-yes.c"
      (racy local_race buffer_write local_load "shmem_int_get_nbi" 52 "LOAD" 54 2) 2
      λ my_pe num_pe. do
        prologue 24 0 2 my_pe num_pe
        shmem 39 Call.barrier_all
        let rem_ptr = remote
        let lbuf_ptr = localbuf
        let rem_ptr_alias = rem_ptr
        let lbuf_ptr_alias = lbuf_ptr
        when (my_pe == 0)
            do shmem 52 (Call.get_nbi lbuf_ptr rem_ptr 1 1); load_int 54 lbuf_ptr_alias
        epilogue 57

abbrev pub pointers_tests : List (TestCase Call)
pointers_tests =
    putnbi_load_aliasing_local_no ∷ getnbi_load_aliasing_local_yes ∷ putnbi_load_retval_local_no
    ∷ getnbi_load_retval_local_yes ∷ putnbi_load_memcpy_local_no ∷ getnbi_load_memcpy_local_yes ∷ []
