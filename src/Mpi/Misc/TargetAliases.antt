-- ===== src/Mpi/Misc/TargetAliases.antt =====
-- A window with two names, and function pointers: tests of MPIRMA/misc.
-- A pointer variable is a value of the model, and a function that writes one yields it; memcpy from
-- one to another copies it.
use rmarace_bench.Base.{String, if◌then◌else◌, List, [], ◌∷◌, not, ◌==◌}
use rmarace_bench.Race.Access.{int}
use rmarace_bench.Race.Label.{remote_race, local_store, rma_read}
use rmarace_bench.Program.{Ptr, Run, ◌>>◌, when, load_int, store_int, elem}
use rmarace_bench.TestCase.{TestCase, test, racy, quiet}
use rmarace_bench.Mpi.Call.{Call, mpi}
use rmarace_bench.Mpi.Boilerplate.{buf, win, win_base, prologue, epilogue}

-- MPIRMA/misc/011-MPI-misc-get-load-funcpointer-remote-no.c
unfoldable pub get_load_funcpointer_remote_no : TestCase Call
unfolding prologue epilogue
get_load_funcpointer_remote_no =
    test "MPIRMA/misc/011-MPI-misc-get-load-funcpointer-remote-no.c" (quiet 2) 2 λ rank size. do
      let rank0 : Ptr → String → Ptr → Run Call (Unit {0}) =
          λ buf win win_base. mpi 23 (Call.get buf 1 int 1 0 1 int win)
      let rank1 : Ptr → String → Ptr → Run Call (Unit {0}) =
          λ buf win win_base. load_int 25 (elem win_base 0)
      prologue 30 2 rank size
      mpi 56 (Call.win_fence 0 win)
      let rankfunc : Ptr → String → Ptr → Run Call (Unit {0}) = if rank == 0 then rank0 else rank1
      rankfunc buf win win_base
      mpi 65 (Call.win_fence 0 win)
      epilogue 67

-- MPIRMA/misc/012-MPI-misc-get-store-funcpointer-remote-yes.c
unfoldable pub get_store_funcpointer_remote_yes : TestCase Call
unfolding prologue epilogue
get_store_funcpointer_remote_yes =
    test "MPIRMA/misc/012-MPI-misc-get-store-funcpointer-remote-yes.c"
      (racy remote_race rma_read local_store "MPI_Get" 29 "STORE" 35 2) 2
      λ rank size. do
        let rank0 : Ptr → String → Ptr → Run Call (Unit {0}) =
            λ buf win win_base. mpi 29 (Call.get buf 1 int 1 0 1 int win)
        let rank1 : Ptr → String → Ptr → Run Call (Unit {0}) =
            λ buf win win_base. store_int 35 (elem win_base 0) 42
        prologue 41 2 rank size
        mpi 67 (Call.win_fence 0 win)
        let rankfunc : Ptr → String → Ptr → Run Call (Unit {0}) = if rank == 0 then rank0 else rank1
        rankfunc buf win win_base
        mpi 76 (Call.win_fence 0 win)
        epilogue 78

-- MPIRMA/misc/013-MPI-misc-get-load-aliasing-remote-no.c
unfoldable pub get_load_aliasing_remote_no : TestCase Call
unfolding prologue epilogue
get_load_aliasing_remote_no =
    test "MPIRMA/misc/013-MPI-misc-get-load-aliasing-remote-no.c" (quiet 2) 2 λ rank size. do
      let aliasgenerator : Ptr → Ptr = λ x. x
      prologue 27 2 rank size
      mpi 51 (Call.win_fence 0 win)
      let buf_alias = aliasgenerator buf
      let win_base_alias = aliasgenerator win_base
      when (rank == 0) do mpi 60 (Call.get buf 1 int 1 0 1 int win)
      when (not (rank == 0)) do load_int 62 (elem win_base_alias 0)
      mpi 65 (Call.win_fence 0 win)
      epilogue 67

-- MPIRMA/misc/014-MPI-misc-get-store-aliasing-remote-yes.c
unfoldable pub get_store_aliasing_remote_yes : TestCase Call
unfolding prologue epilogue
get_store_aliasing_remote_yes =
    test "MPIRMA/misc/014-MPI-misc-get-store-aliasing-remote-yes.c"
      (racy remote_race rma_read local_store "MPI_Get" 64 "STORE" 67 2) 2
      λ rank size. do
        let aliasgenerator : Ptr → Ptr = λ x. x
        prologue 29 2 rank size
        mpi 53 (Call.win_fence 0 win)
        let buf_alias = aliasgenerator buf
        let win_base_alias = aliasgenerator win_base
        when (rank == 0) do mpi 64 (Call.get buf 1 int 1 0 1 int win)
        when (not (rank == 0)) do store_int 67 (elem win_base_alias 0) 42
        mpi 70 (Call.win_fence 0 win)
        epilogue 72

-- MPIRMA/misc/015-MPI-misc-get-load-retval-remote-no.c
unfoldable pub get_load_retval_remote_no : TestCase Call
unfolding prologue epilogue
get_load_retval_remote_no =
    test "MPIRMA/misc/015-MPI-misc-get-load-retval-remote-no.c" (quiet 2) 2 λ rank size. do
      let aliasgenerator : Ptr → Ptr = λ x. x
      prologue 27 2 rank size
      mpi 51 (Call.win_fence 0 win)
      let buf_alias = aliasgenerator buf
      let win_base_alias = aliasgenerator win_base
      when (rank == 0) do mpi 60 (Call.get buf 1 int 1 0 1 int win)
      when (not (rank == 0)) do load_int 62 (elem win_base_alias 0)
      mpi 65 (Call.win_fence 0 win)
      epilogue 67

-- MPIRMA/misc/016-MPI-misc-get-store-retval-remote-yes.c
unfoldable pub get_store_retval_remote_yes : TestCase Call
unfolding prologue epilogue
get_store_retval_remote_yes =
    test "MPIRMA/misc/016-MPI-misc-get-store-retval-remote-yes.c"
      (racy remote_race rma_read local_store "MPI_Get" 64 "STORE" 67 2) 2
      λ rank size. do
        let aliasgenerator : Ptr → Ptr = λ x. x
        prologue 29 2 rank size
        mpi 53 (Call.win_fence 0 win)
        let buf_alias = aliasgenerator buf
        let win_base_alias = aliasgenerator win_base
        when (rank == 0) do mpi 64 (Call.get buf 1 int 1 0 1 int win)
        when (not (rank == 0)) do store_int 67 (elem win_base_alias 0) 42
        mpi 70 (Call.win_fence 0 win)
        epilogue 72

-- MPIRMA/misc/017-MPI-misc-get-load-memcpy-remote-no.c
unfoldable pub get_load_memcpy_remote_no : TestCase Call
unfolding prologue epilogue
get_load_memcpy_remote_no =
    test "MPIRMA/misc/017-MPI-misc-get-load-memcpy-remote-no.c" (quiet 2) 2 λ rank size. do
      prologue 26 2 rank size
      mpi 50 (Call.win_fence 0 win)
      let buf_alias = buf
      let win_base_alias = win_base
      when (rank == 0) do mpi 59 (Call.get buf 1 int 1 0 1 int win)
      when (not (rank == 0)) do load_int 61 (elem win_base_alias 0)
      mpi 64 (Call.win_fence 0 win)
      epilogue 66

-- MPIRMA/misc/018-MPI-misc-get-store-memcpy-remote-yes.c
unfoldable pub get_store_memcpy_remote_yes : TestCase Call
unfolding prologue epilogue
get_store_memcpy_remote_yes =
    test "MPIRMA/misc/018-MPI-misc-get-store-memcpy-remote-yes.c"
      (racy remote_race rma_read local_store "MPI_Get" 63 "STORE" 66 2) 2
      λ rank size. do
        prologue 28 2 rank size
        mpi 52 (Call.win_fence 0 win)
        let buf_alias = buf
        let win_base_alias = win_base
        when (rank == 0) do mpi 63 (Call.get buf 1 int 1 0 1 int win)
        when (not (rank == 0)) do store_int 66 (elem win_base_alias 0) 42
        mpi 69 (Call.win_fence 0 win)
        epilogue 71

abbrev pub target_aliases_tests : List (TestCase Call)
target_aliases_tests =
    get_load_funcpointer_remote_no ∷ get_store_funcpointer_remote_yes ∷ get_load_aliasing_remote_no
    ∷ get_store_aliasing_remote_yes ∷ get_load_retval_remote_no ∷ get_store_retval_remote_yes
    ∷ get_load_memcpy_remote_no ∷ get_store_memcpy_remote_yes ∷ []
