-- ===== src/Mpi/Results/Labels.antt =====
-- Labels under MPIRMA that say less or other than what their tests do.
use rmarace_bench.Race.Label.{
  Label, local_race, remote_race, buffer_read, local_store, rma_write, rma_read,
}
use rmarace_bench.TestCase.{racy}

abbrev put_store : Label
put_store = racy local_race buffer_read local_store "MPI_Put" 56 "STORE" 58 2

abbrev remote_put_get : Label
remote_put_get = racy remote_race rma_write rma_read "MPI_Put" 56 "MPI_Get" 59 2

abbrev also_remote : Label
also_remote = racy remote_race rma_read rma_write "MPI_Get" 54 "MPI_Put" 56 2
