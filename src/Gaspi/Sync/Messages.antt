-- ===== src/Gaspi/Sync/Messages.antt =====
-- gaspi_allreduce, and passive messages: tests of GASPI/sync.
use rmarace_bench.Base.{List, [], ◌∷◌, ◌==◌}
use rmarace_bench.Race.Access.{int, size_of}
use rmarace_bench.Race.Label.{remote_race, local_store, rma_read, rma_write}
use rmarace_bench.Program.{◌>>◌, when, load_int, store_int, addr, elem}
use rmarace_bench.TestCase.{TestCase, test, racy, quiet}
use rmarace_bench.Gaspi.Call.{place, Call, gaspi}
use rmarace_bench.Gaspi.Boilerplate.{
  loc_seg_id, remote_seg_id, queue_id, localbuf, remote_data, prologue, epilogue,
}

-- GASPI/sync/011-GASPI-sync-wait-allreduce-remote-no.c
unfoldable pub wait_allreduce_remote_no : TestCase Call
unfolding prologue epilogue
wait_allreduce_remote_no =
    test "GASPI/sync/011-GASPI-sync-wait-allreduce-remote-no.c" (quiet 3) 3 λ rank num. do
      prologue 26 3 num
      gaspi 59 Call.barrier
      when (rank == 0) do
        gaspi 62 (Call.read (place loc_seg_id 0) 1 (place remote_seg_id 0) (size_of int) queue_id)
        gaspi 63 (Call.wait queue_id)
        load_int 64 (elem localbuf 0)
      store_int 67 (addr "send") 1
      gaspi 69 (Call.allreduce (addr "send") (addr "recv") 1 (size_of int))
      load_int 70 (addr "recv")
      when (rank == 1) do store_int 73 (elem remote_data 0) 42
      epilogue 76 rank num

-- GASPI/sync/012-GASPI-sync-wait-allreduce-remote-yes.c
unfoldable pub wait_allreduce_remote_yes : TestCase Call
unfolding prologue epilogue
wait_allreduce_remote_yes =
    test "GASPI/sync/012-GASPI-sync-wait-allreduce-remote-yes.c"
      (racy remote_race rma_write local_store "gaspi_read" 64 "STORE" 71 3) 3
      λ rank num. do
        prologue 27 3 num
        gaspi 60 Call.barrier
        when (rank == 0) do
          gaspi 64 (Call.read (place loc_seg_id 0) 1 (place remote_seg_id 0) (size_of int) queue_id)
          gaspi 65 (Call.wait queue_id)
          load_int 66 (elem localbuf 0)
        when (rank == 1) do store_int 71 (elem remote_data 0) 42
        store_int 74 (addr "send") 1
        gaspi 76 (Call.allreduce (addr "send") (addr "recv") 1 (size_of int))
        load_int 77 (addr "recv")
        epilogue 79 rank num

-- GASPI/sync/013-GASPI-sync-wait-sendrecv-remote-no.c
unfoldable pub wait_sendrecv_remote_no : TestCase Call
unfolding prologue epilogue
wait_sendrecv_remote_no =
    test "GASPI/sync/013-GASPI-sync-wait-sendrecv-remote-no.c" (quiet 2) 2 λ rank num. do
      prologue 26 2 num
      gaspi 59 Call.barrier
      when (rank == 0) do
        gaspi 62 (Call.read (place loc_seg_id 0) 1 (place remote_seg_id 0) (size_of int) queue_id)
        gaspi 63 (Call.wait queue_id)
        load_int 64 (elem localbuf 0)
        gaspi 65 (Call.passive_send (place loc_seg_id 0) 1 4)
      when (rank == 1) do
        gaspi 70 (Call.passive_receive (place loc_seg_id 0) 4)
        load_int 71 (elem localbuf 0)
        store_int 72 (elem remote_data 0) 42
      epilogue 75 rank num

-- GASPI/sync/014-GASPI-sync-wait-sendrecv-remote-yes.c
unfoldable pub wait_sendrecv_remote_yes : TestCase Call
unfolding prologue epilogue
wait_sendrecv_remote_yes =
    test "GASPI/sync/014-GASPI-sync-wait-sendrecv-remote-yes.c"
      (racy remote_race rma_read local_store "gaspi_read" 64 "STORE" 72 2) 2
      λ rank num. do
        prologue 27 2 num
        gaspi 60 Call.barrier
        when (rank == 0) do
          gaspi 64 (Call.read (place loc_seg_id 0) 1 (place remote_seg_id 0) (size_of int) queue_id)
          gaspi 65 (Call.wait queue_id)
          load_int 66 (elem localbuf 0)
          gaspi 67 (Call.passive_send (place loc_seg_id 0) 1 4)
        when (rank == 1) do
          store_int 72 (elem remote_data 0) 42
          gaspi 75 (Call.passive_receive (place loc_seg_id 0) 4)
          load_int 76 (elem localbuf 0)
        epilogue 79 rank num

abbrev pub messages_tests : List (TestCase Call)
messages_tests = wait_allreduce_remote_no ∷ wait_sendrecv_remote_no ∷ wait_sendrecv_remote_yes ∷ []
