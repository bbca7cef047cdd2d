-- ===== src/Gaspi/Guarantees/Calls.antt =====
-- The calls one by one: the memory that a data call accesses, and the notification that it sends.
use rmarace_bench.Base.{
  ltb, if◌then◌else◌, ℕ, ◌*◌, String, Bool, true, false, Option, none, some, List, [], ◌∷◌, ◌==◌,
}
use rmarace_bench.Race.Access.{Mode, read, write, atomic_update, long, size_of}
use rmarace_bench.Program.{Ptr}
use rmarace_bench.Gaspi.Call.{Call, Place}

pub record Buffer : Type 0 where
  pub start : Ptr
  pub bytes : ℕ
  pub mode : Mode

-- A notification to a process, on a segment of it.
pub record Notification : Type 0 where
  pub to : ℕ
  pub segment : String
  pub id : ℕ
  pub queue : ℕ

-- A request on a queue, or an operation that is complete when the call returns.
pub record Transfer : Type 0 where
  pub name : String
  pub rank : ℕ
  pub at_target : List Buffer
  pub at_origin : List Buffer
  pub is_write : Bool
  pub queue : Option ℕ

abbrev starts_at : Place → Ptr
starts_at p = record { object = p.segment; offset = p.offset }

buffer : Mode → Place → ℕ → Buffer
buffer m p n = record { start = starts_at p; bytes = n; mode = m }

-- The i-th place with the i-th size.
buffers : Mode → List Place → List ℕ → List Buffer
unfolding buffer
buffers m (p ∷ ps) (n ∷ ns) = buffer m p n ∷ buffers m ps ns
buffers m _ _ = []

writing : String → List Place → ℕ → List Place → List ℕ → ℕ → Transfer
unfolding buffers
writing name here r there sizes q = record {
  name = name;
  rank = r;
  at_target = buffers write there sizes;
  at_origin = buffers read here sizes;
  is_write = true;
  queue = some q;
}

reading : String → List Place → ℕ → List Place → List ℕ → ℕ → Transfer
unfolding buffers
reading name here r there sizes q = record {
  name = name;
  rank = r;
  at_target = buffers read there sizes;
  at_origin = buffers write here sizes;
  is_write = false;
  queue = some q;
}

abbrev one : {A : Type 0} → A → List A
one x = x ∷ []

unfoldable pub transfer_of : Call → Option Transfer
unfolding writing reading buffer
transfer_of (Call.write h r t n q) = some (writing "gaspi_write" (one h) r (one t) (one n) q)
transfer_of (Call.write_notify h r t n _ _ q) =
    some (writing "gaspi_write_notify" (one h) r (one t) (one n) q)
transfer_of (Call.write_list h r t ns q) = some (writing "gaspi_write_list" h r t ns q)
transfer_of (Call.write_list_notify h r t ns _ _ _ q) =
    some (writing "gaspi_write_list_notify" h r t ns q)
transfer_of (Call.read h r t n q) = some (reading "gaspi_read" (one h) r (one t) (one n) q)
transfer_of (Call.read_notify h r t n _ q) =
    some (reading "gaspi_read_notify" (one h) r (one t) (one n) q)
transfer_of (Call.read_list h r t ns q) = some (reading "gaspi_read_list" h r t ns q)
transfer_of (Call.read_list_notify h r t ns _ _ q) =
    some (reading "gaspi_read_list_notify" h r t ns q)
transfer_of (Call.atomic_fetch_add t r _ old) = some (record {
  name = "gaspi_atomic_fetch_add";
  rank = r;
  at_target = buffer (atomic_update long) t (size_of long) ∷ [];
  at_origin = record { start = old; bytes = size_of long; mode = write } ∷ [];
  is_write = false;
  queue = none;
})
transfer_of _ = none

-- A write notifies its target, a read the process that reads.
unfoldable pub notifies : ℕ → Call → Option Notification
notifies me (Call.notify s r i _ q) = some (record { to = r; segment = s; id = i; queue = q })
notifies me (Call.write_notify _ r t _ i _ q) =
    some (record { to = r; segment = t.segment; id = i; queue = q })
notifies me (Call.write_list_notify _ r _ _ s i _ q) =
    some (record { to = r; segment = s; id = i; queue = q })
notifies me (Call.read_notify h _ _ _ i q) =
    some (record { to = me; segment = h.segment; id = i; queue = q })
notifies me (Call.read_list_notify _ _ _ _ s i q) =
    some (record { to = me; segment = s; id = i; queue = q })
notifies me _ = none

-- The bytes of an element: gaspi_datatype_t is int, unsigned, float, double, long and unsigned long
-- in this order in GPI-2 1.5.1, which Dockerfile installs.
element : ℕ → ℕ
element type = if ltb type 3 then 4 else 8

-- What the other calls do with the buffers of the process, before they return.
unfoldable pub own_buffers : Call → List (String × Buffer)
unfolding buffer element
own_buffers (Call.passive_send h _ n) = ("gaspi_passive_send", buffer read h n) ∷ []
own_buffers (Call.passive_receive h n) = ("gaspi_passive_receive", buffer write h n) ∷ []
own_buffers (Call.allreduce s r n type) =
    ("gaspi_allreduce", record { start = s; bytes = n * element type; mode = read })
    ∷ ("gaspi_allreduce", record { start = r; bytes = n * element type; mode = write })
    ∷ []
own_buffers _ = []

unfoldable pub waits_for_queue : ℕ → Call → Bool
waits_for_queue q (Call.wait p) = p == q
waits_for_queue q _ = false
