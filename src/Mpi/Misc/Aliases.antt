-- ===== src/Mpi/Misc/Aliases.antt =====
-- A local buffer with two names: tests of MPIRMA/misc.
-- A pointer variable is a value of the model, and a function that writes one yields it; memcpy from
-- one to another copies it.
use rmarace_bench.Base.{List, [], ◌∷◌, ◌==◌}
use rmarace_bench.Race.Access.{int}
use rmarace_bench.Race.Label.{local_race, buffer_write, local_load}
use rmarace_bench.Program.{Ptr, ◌>>◌, when, load_int}
use rmarace_bench.TestCase.{TestCase, test, racy, quiet}
use rmarace_bench.Mpi.Call.{Call, mpi}
use rmarace_bench.Mpi.Boilerplate.{buf, win, win_base, prologue, epilogue}

-- MPIRMA/misc/003-MPI-misc-put-load-aliasing-local-no.c
unfoldable pub put_load_aliasing_local_no : TestCase Call
unfolding prologue epilogue
put_load_aliasing_local_no =
    test "MPIRMA/misc/003-MPI-misc-put-load-aliasing-local-no.c" (quiet 2) 2 λ rank size. do
      let aliasgenerator : Ptr → Ptr = λ x. x
      prologue 27 2 rank size
      mpi 51 (Call.win_fence 0 win)
      let buf_alias = aliasgenerator buf
      let win_base_alias = aliasgenerator win_base
      when (rank == 0) do mpi 60 (Call.put buf 1 int 1 0 1 int win); load_int 61 buf_alias
      mpi 64 (Call.win_fence 0 win)
      epilogue 66

-- MPIRMA/misc/004-MPI-misc-get-load-aliasing-local-yes.c
unfoldable pub get_load_aliasing_local_yes : TestCase Call
unfolding prologue epilogue
get_load_aliasing_local_yes =
    test "MPIRMA/misc/004-MPI-misc-get-load-aliasing-local-yes.c"
      (racy local_race buffer_write local_load "MPI_Get" 64 "LOAD" 66 2) 2
      λ rank size. do
        let aliasgenerator : Ptr → Ptr = λ x. x
        prologue 29 2 rank size
        mpi 53 (Call.win_fence 0 win)
        let buf_alias = aliasgenerator buf
        let win_base_alias = aliasgenerator win_base
        when (rank == 0) do mpi 64 (Call.get buf 1 int 1 0 1 int win); load_int 66 buf_alias
        mpi 69 (Call.win_fence 0 win)
        epilogue 71

-- MPIRMA/misc/005-MPI-misc-put-load-retval-local-no.c
unfoldable pub put_load_retval_local_no : TestCase Call
unfolding prologue epilogue
put_load_retval_local_no =
    test "MPIRMA/misc/005-MPI-misc-put-load-retval-local-no.c" (quiet 2) 2 λ rank size. do
      let aliasgenerator : Ptr → Ptr = λ x. x
      prologue 27 2 rank size
      mpi 51 (Call.win_fence 0 win)
      let buf_alias = aliasgenerator buf
      let win_base_alias = aliasgenerator win_base
      when (rank == 0) do mpi 60 (Call.put buf 1 int 1 0 1 int win); load_int 61 buf_alias
      mpi 64 (Call.win_fence 0 win)
      epilogue 66

-- MPIRMA/misc/006-MPI-misc-get-load-retval-local-yes.c
unfoldable pub get_load_retval_local_yes : TestCase Call
unfolding prologue epilogue
get_load_retval_local_yes =
    test "MPIRMA/misc/006-MPI-misc-get-load-retval-local-yes.c"
      (racy local_race buffer_write local_load "MPI_Get" 64 "LOAD" 66 2) 2
      λ rank size. do
        let aliasgenerator : Ptr → Ptr = λ x. x
        prologue 29 2 rank size
        mpi 53 (Call.win_fence 0 win)
        let buf_alias = aliasgenerator buf
        let win_base_alias = aliasgenerator win_base
        when (rank == 0) do mpi 64 (Call.get buf 1 int 1 0 1 int win); load_int 66 buf_alias
        mpi 69 (Call.win_fence 0 win)
        epilogue 71

-- MPIRMA/misc/007-MPI-misc-put-load-memcpy-local-no.c
unfoldable pub put_load_memcpy_local_no : TestCase Call
unfolding prologue epilogue
put_load_memcpy_local_no =
    test "MPIRMA/misc/007-MPI-misc-put-load-memcpy-local-no.c" (quiet 2) 2 λ rank size. do
      prologue 26 2 rank size
      mpi 50 (Call.win_fence 0 win)
      let buf_alias = buf
      let win_base_alias = win_base
      when (rank == 0) do mpi 59 (Call.put buf 1 int 1 0 1 int win); load_int 60 buf_alias
      mpi 63 (Call.win_fence 0 win)
      epilogue 65

-- MPIRMA/misc/008-MPI-misc-get-load-memcpy-local-yes.c
unfoldable pub get_load_memcpy_local_yes : TestCase Call
unfolding prologue epilogue
get_load_memcpy_local_yes =
    test "MPIRMA/misc/008-MPI-misc-get-load-memcpy-local-yes.c"
      (racy local_race buffer_write local_load "MPI_Get" 63 "LOAD" 65 2) 2
      λ rank size. do
        prologue 28 2 rank size
        mpi 52 (Call.win_fence 0 win)
        let buf_alias = buf
        let win_base_alias = win_base
        when (rank == 0) do mpi 63 (Call.get buf 1 int 1 0 1 int win); load_int 65 buf_alias
        mpi 68 (Call.win_fence 0 win)
        epilogue 70

abbrev pub aliases_tests : List (TestCase Call)
aliases_tests =
    put_load_aliasing_local_no ∷ get_load_aliasing_local_yes ∷ put_load_retval_local_no
    ∷ get_load_retval_local_yes ∷ put_load_memcpy_local_no ∷ get_load_memcpy_local_yes ∷ []
