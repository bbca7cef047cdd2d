-- ===== src/Shmem/Misc/TargetPointers.antt =====
-- A target with two names, and function pointers: tests of SHMEM/misc.
-- A pointer variable is a value of the model, and a function that writes one yields it; memcpy from
-- one to another copies it.
use rmarace_bench.Base.{if◌then◌else◌, List, [], ◌∷◌, not, ◌==◌}
use rmarace_bench.Race.Label.{remote_race, local_store, rma_read}
use rmarace_bench.Program.{Ptr, Run, ◌>>◌, when, load_int, store_int}
use rmarace_bench.TestCase.{TestCase, test, racy, quiet}
use rmarace_bench.Shmem.Call.{Call, shmem}
use rmarace_bench.Shmem.Boilerplate.{remote, localbuf, prologue, epilogue}

-- SHMEM/misc/011-shmem-misc-get-load-funcpointer-remote-no.c
unfoldable pub get_load_funcpointer_remote_no : TestCase Call
unfolding prologue epilogue
get_load_funcpointer_remote_no =
    test "SHMEM/misc/011-shmem-misc-get-load-funcpointer-remote-no.c" (quiet 2) 2 λ my_pe num_pe. do
      let rank0 : Ptr → Ptr → Run Call (Unit {0}) =
          λ rem_ptr lbuf_ptr. shmem 20 (Call.get lbuf_ptr rem_ptr 1 1)
      let rank1 : Ptr → Ptr → Run Call (Unit {0}) = λ rem_ptr lbuf_ptr. load_int 22 rem_ptr
      prologue 26 0 2 my_pe num_pe
      let rem_ptr = remote
      let lbuf_ptr = localbuf
      shmem 45 Call.barrier_all
      let rankfunc : Ptr → Ptr → Run Call (Unit {0}) = if my_pe == 0 then rank0 else rank1
      rankfunc rem_ptr lbuf_ptr
      epilogue 54

-- SHMEM/misc/012-shmem-misc-get-store-funcpointer-remote-yes.c
unfoldable pub get_store_funcpointer_remote_yes : TestCase Call
unfolding prologue epilogue
get_store_funcpointer_remote_yes =
    test "SHMEM/misc/012-shmem-misc-get-store-funcpointer-remote-yes.c"
      (racy remote_race rma_read local_store "shmem_int_get" 25 "STORE" 31 2) 2
      λ my_pe num_pe. do
        let rank0 : Ptr → Ptr → Run Call (Unit {0}) =
            λ rem_ptr lbuf_ptr. shmem 25 (Call.get lbuf_ptr rem_ptr 1 1)
        let rank1 : Ptr → Ptr → Run Call (Unit {0}) = λ rem_ptr lbuf_ptr. store_int 31 rem_ptr 42
        prologue 36 0 2 my_pe num_pe
        let rem_ptr = remote
        let lbuf_ptr = localbuf
        shmem 55 Call.barrier_all
        let rankfunc : Ptr → Ptr → Run Call (Unit {0}) = if my_pe == 0 then rank0 else rank1
        rankfunc rem_ptr lbuf_ptr
        epilogue 64

-- SHMEM/misc/013-shmem-misc-get-load-aliasing-remote-no.c
unfoldable pub get_load_aliasing_remote_no : TestCase Call
unfolding prologue epilogue
get_load_aliasing_remote_no =
    test "SHMEM/misc/013-shmem-misc-get-load-aliasing-remote-no.c" (quiet 2) 2 λ my_pe num_pe. do
      let aliasgenerator : Ptr → Ptr = λ x. x
      prologue 24 0 2 my_pe num_pe
      shmem 39 Call.barrier_all
      let rem_ptr = remote
      let lbuf_ptr = localbuf
      let rem_ptr_alias = aliasgenerator rem_ptr
      let lbuf_ptr_alias = aliasgenerator lbuf_ptr
      when (my_pe == 0) do shmem 50 (Call.get lbuf_ptr rem_ptr 1 1)
      when (not (my_pe == 0)) do load_int 52 rem_ptr_alias
      epilogue 55

-- SHMEM/misc/014-shmem-misc-get-store-aliasing-remote-yes.c
unfoldable pub get_store_aliasing_remote_yes : TestCase Call
unfolding prologue epilogue
get_store_aliasing_remote_yes =
    test "SHMEM/misc/014-shmem-misc-get-store-aliasing-remote-yes.c"
      (racy remote_race rma_read local_store "shmem_int_get" 53 "STORE" 56 2) 2
      λ my_pe num_pe. do
        let aliasgenerator : Ptr → Ptr = λ x. x
        prologue 25 0 2 my_pe num_pe
        shmem 40 Call.barrier_all
        let rem_ptr = remote
        let lbuf_ptr = localbuf
        let rem_ptr_alias = aliasgenerator rem_ptr
        let lbuf_ptr_alias = aliasgenerator lbuf_ptr
        when (my_pe == 0) do shmem 53 (Call.get lbuf_ptr rem_ptr 1 1)
        when (not (my_pe == 0)) do store_int 56 rem_ptr_alias 42
        epilogue 59

-- SHMEM/misc/015-shmem-misc-get-load-retval-remote-no.c
unfoldable pub get_load_retval_remote_no : TestCase Call
unfolding prologue epilogue
get_load_retval_remote_no =
    test "SHMEM/misc/015-shmem-misc-get-load-retval-remote-no.c" (quiet 2) 2 λ my_pe num_pe. do
      let aliasgenerator : Ptr → Ptr = λ x. x
      prologue 24 0 2 my_pe num_pe
      shmem 39 Call.barrier_all
      let rem_ptr = remote
      let lbuf_ptr = localbuf
      let rem_ptr_alias = aliasgenerator rem_ptr
      let lbuf_ptr_alias = aliasgenerator lbuf_ptr
      when (my_pe == 0) do shmem 50 (Call.get lbuf_ptr rem_ptr 1 1)
      when (not (my_pe == 0)) do load_int 52 rem_ptr_alias
      epilogue 55

-- SHMEM/misc/016-shmem-misc-get-store-retval-remote-yes.c
unfoldable pub get_store_retval_remote_yes : TestCase Call
unfolding prologue epilogue
get_store_retval_remote_yes =
    test "SHMEM/misc/016-shmem-misc-get-store-retval-remote-yes.c"
      (racy remote_race rma_read local_store "shmem_int_get" 53 "STORE" 56 2) 2
      λ my_pe num_pe. do
        let aliasgenerator : Ptr → Ptr = λ x. x
        prologue 25 0 2 my_pe num_pe
        shmem 40 Call.barrier_all
        let rem_ptr = remote
        let lbuf_ptr = localbuf
        let rem_ptr_alias = aliasgenerator rem_ptr
        let lbuf_ptr_alias = aliasgenerator lbuf_ptr
        when (my_pe == 0) do shmem 53 (Call.get lbuf_ptr rem_ptr 1 1)
        when (not (my_pe == 0)) do store_int 56 rem_ptr_alias 42
        epilogue 59

-- SHMEM/misc/017-shmem-misc-get-load-memcpy-remote-no.c
unfoldable pub get_load_memcpy_remote_no : TestCase Call
unfolding prologue epilogue
get_load_memcpy_remote_no =
    test "SHMEM/misc/017-shmem-misc-get-load-memcpy-remote-no.c" (quiet 2) 2 λ my_pe num_pe. do
      prologue 23 0 2 my_pe num_pe
      shmem 38 Call.barrier_all
      let rem_ptr = remote
      let lbuf_ptr = localbuf
      let rem_ptr_alias = rem_ptr
      let lbuf_ptr_alias = lbuf_ptr
      when (my_pe == 0) do shmem 49 (Call.get lbuf_ptr rem_ptr 1 1)
      when (not (my_pe == 0)) do load_int 51 rem_ptr_alias
      epilogue 54

-- SHMEM/misc/018-shmem-misc-get-store-memcpy-remote-yes.c
unfoldable pub get_store_memcpy_remote_yes : TestCase Call
unfolding prologue epilogue
get_store_memcpy_remote_yes =
    test "SHMEM/misc/018-shmem-misc-get-store-memcpy-remote-yes.c"
      (racy remote_race rma_read local_store "shmem_int_get" 52 "STORE" 55 2) 2
      λ my_pe num_pe. do
        prologue 24 0 2 my_pe num_pe
        shmem 39 Call.barrier_all
        let rem_ptr = remote
        let lbuf_ptr = localbuf
        let rem_ptr_alias = rem_ptr
        let lbuf_ptr_alias = lbuf_ptr
        when (my_pe == 0) do shmem 52 (Call.get lbuf_ptr rem_ptr 1 1)
        when (not (my_pe == 0)) do store_int 55 rem_ptr_alias 42
        epilogue 58

abbrev pub target_pointers_tests : List (TestCase Call)
target_pointers_tests =
    get_load_funcpointer_remote_no ∷ get_store_funcpointer_remote_yes ∷ get_load_aliasing_remote_no
    ∷ get_store_aliasing_remote_yes ∷ get_load_retval_remote_no ∷ get_store_retval_remote_yes
    ∷ get_load_memcpy_remote_no ∷ get_store_memcpy_remote_yes ∷ []
