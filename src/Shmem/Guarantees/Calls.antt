-- ===== src/Shmem/Guarantees/Calls.antt =====
-- The calls one by one: the memory that a data call accesses, and how it is completed.
use rmarace_bench.Base.{
  ℕ, ◌*◌, String, Bool, true, false, Option, none, some, List, [], ◌∷◌, str_eq, map,
}
use rmarace_bench.Race.Access.{
  Datatype, short, float, double, long, Mode, read, write, atomic_read, atomic_update, int, size_of,
}
use rmarace_bench.Program.{Ptr, elem, ranks}
use rmarace_bench.Shmem.Call.{Call}

pub record Buffer : Type 0 where
  pub start : Ptr
  pub bytes : ℕ
  pub mode : Mode

-- `returns_early`: the origin buffers may be in use after the return. `lags`: so may the target.
-- `stores`: shmem_fence orders it. `context` is none for the default context. `signals`: the object
-- at the target that the call sets and that a process may wait for.
pub record Transfer : Type 0 where
  pub name : String
  pub pe : ℕ
  pub at_target : List Buffer
  pub at_origin : List Buffer
  pub returns_early : Bool
  pub lags : Bool
  pub stores : Bool
  pub context : Option String
  pub signals : Option Ptr

ints : Ptr → ℕ → Mode → Buffer
ints q n m = record { start = q; bytes = n * size_of int; mode = m }

-- every `st`-th of an array, `n` of them
strided : Ptr → ℕ → ℕ → Mode → List Buffer
unfolding ints
strided q st n m = map (λ i. ints (elem q (i * st)) 1 m) (ranks n 0)

-- a uint64_t
signal : Ptr → Buffer
signal q = record { start = q; bytes = 8; mode = write }

in_default : Option String → Bool
in_default none = true
in_default (some _) = false

-- A put is back when its source has been read; its target is written by the next quiet.
-- shmem_fence is one of the default context.
putting : String → Ptr → Ptr → ℕ → ℕ → Option String → Transfer
unfolding ints in_default
putting name d s n pe ctx = record {
  name = name;
  pe = pe;
  at_target = ints d n write ∷ [];
  at_origin = ints s n read ∷ [];
  returns_early = false;
  lags = true;
  stores = in_default ctx;
  context = ctx;
  signals = none;
}

getting : String → Ptr → Ptr → ℕ → ℕ → Transfer
unfolding ints
getting name d s n pe = record {
  name = name;
  pe = pe;
  at_target = ints s n read ∷ [];
  at_origin = ints d n write ∷ [];
  returns_early = false;
  lags = false;
  stores = false;
  context = none;
  signals = none;
}

type_of : Mode → Datatype
type_of (atomic_read t) = t
type_of (atomic_update t) = t
type_of _ = int

-- An atomic operation on one value, with a buffer for what it fetches if it is nonblocking.
atomic : String → Ptr → ℕ → Mode → List Buffer → Transfer
unfolding type_of
atomic name d pe m fetch = record {
  name = name;
  pe = pe;
  at_target = record { start = d; bytes = size_of (type_of m); mode = m } ∷ [];
  at_origin = fetch;
  returns_early = true;
  lags = true;
  stores = false;
  context = none;
  signals = none;
}

-- The names of the functions for a type.
set_name : Datatype → String
set_name short = "shmem_short_atomic_set"
set_name float = "shmem_float_atomic_set"
set_name double = "shmem_double_atomic_set"
set_name long = "shmem_long_atomic_set"
set_name _ = "shmem_int_atomic_set"

add_name : Datatype → String
add_name short = "shmem_short_atomic_add"
add_name float = "shmem_float_atomic_add"
add_name double = "shmem_double_atomic_add"
add_name long = "shmem_long_atomic_add"
add_name _ = "shmem_int_atomic_add"

unfoldable pub transfer_of : Call → Option Transfer
unfolding putting getting atomic ints signal strided set_name add_name
transfer_of (Call.put d s n pe) = some (putting "shmem_int_put" d s n pe none)
transfer_of (Call.ctx_put c d s n pe) = some (putting "shmem_ctx_int_put" d s n pe (some c))
transfer_of (Call.iput d s dst sst n pe) = some (record (putting "shmem_int_iput" d s n pe none) {
  at_target = strided d dst n write;
  at_origin = strided s sst n read;
})
transfer_of (Call.put_nbi d s n pe) =
    some (record (putting "shmem_int_put_nbi" d s n pe none) { returns_early = true })
transfer_of (Call.put_signal d s n sig _ pe) =
    some (record (putting "shmem_int_put_signal" d s n pe none) {
      at_target = ints d n write ∷ signal sig ∷ [];
      signals = some sig;
    })
transfer_of (Call.put_signal_nbi d s n sig _ pe) =
    some (record (putting "shmem_int_put_signal_nbi" d s n pe none) {
      at_target = ints d n write ∷ signal sig ∷ [];
      signals = some sig;
      returns_early = true;
    })
transfer_of (Call.p d _ pe) = some (record (putting "shmem_int_p" d d 1 pe none) { at_origin = [] })
transfer_of (Call.get d s n pe) = some (getting "shmem_int_get" d s n pe)
transfer_of (Call.iget d s dst sst n pe) = some (record (getting "shmem_int_iget" d s n pe) {
  at_target = strided s sst n read;
  at_origin = strided d dst n write;
})
transfer_of (Call.get_nbi d s n pe) =
    some (record (getting "shmem_int_get_nbi" d s n pe) { returns_early = true; lags = true })
transfer_of (Call.put_nbi_generic d s n pe) =
    some (record (putting "shmem_put_nbi" d s n pe none) { returns_early = true })
transfer_of (Call.get_nbi_generic d s n pe) =
    some (record (getting "shmem_get_nbi" d s n pe) { returns_early = true; lags = true })
transfer_of (Call.g s pe) = some (record (getting "shmem_int_g" s s 1 pe) { at_origin = [] })
transfer_of (Call.atomic_fetch s pe) =
    some (record (atomic "shmem_int_atomic_fetch" s pe (atomic_read int) []) { lags = false })
transfer_of (Call.atomic_fetch_nbi f s pe) =
    some (atomic "shmem_int_atomic_fetch_nbi" s pe (atomic_read int) (ints f 1 write ∷ []))
transfer_of (Call.atomic_fetch_inc d pe) =
    some (record (atomic "shmem_int_atomic_fetch_inc" d pe (atomic_update int) []) { lags = false })
transfer_of (Call.atomic_fetch_inc_nbi f d pe) =
    some (atomic "shmem_int_atomic_fetch_inc_nbi" d pe (atomic_update int) (ints f 1 write ∷ []))
transfer_of (Call.atomic_compare_swap_nbi f d _ _ pe) =
    some (atomic "shmem_int_atomic_compare_swap_nbi" d pe (atomic_update int) (ints f 1 write ∷ []))
transfer_of (Call.atomic_set d _ pe) =
    some (record (atomic "shmem_int_atomic_set" d pe (atomic_update int) []) {
      stores = true;
      signals = some d;
    })
transfer_of (Call.atomic_add d _ pe) =
    some (record (atomic "shmem_int_atomic_add" d pe (atomic_update int) []) { stores = true })
transfer_of (Call.atomic_set_as t d pe) =
    some (record (atomic (set_name t) d pe (atomic_update t) []) { stores = true })
transfer_of (Call.atomic_add_as t d pe) =
    some (record (atomic (add_name t) d pe (atomic_update t) []) { stores = true })
transfer_of (Call.ctx_atomic_add c d _ pe) =
    some
      (record (atomic "shmem_ctx_int_atomic_add" d pe (atomic_update int) []) { context = some c })
transfer_of _ = none

in_context : Option String → String → Bool
in_context none c = false
in_context (some d) c = str_eq c d

-- The call completes the transfers that its process has issued in the context. A barrier and the
-- release of a lock begin with a quiet of the default context, and finalisation with a barrier.
unfoldable pub completes : Option String → Call → Bool
unfolding in_context in_default
completes ctx Call.quiet = in_default ctx
completes ctx Call.barrier_all = in_default ctx
completes ctx Call.finalize = in_default ctx
completes ctx (Call.clear_lock _) = in_default ctx
completes ctx (Call.ctx_quiet c) = in_context ctx c
completes ctx _ = false

-- The object that the call waits for.
unfoldable pub waits_for : Call → Option Ptr
waits_for (Call.uint64_wait_until q _) = some q
waits_for (Call.int_wait_until q _) = some q
waits_for _ = none
