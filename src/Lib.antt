-- ===== src/Lib.antt =====
-- RMARaceBench: a suite of small C programs (MPIRMA, SHMEM, GASPI), each with one pair of memory
-- accesses that do or do not race, and with a label in a comment at its head that says which
-- (RACE_KIND, ACCESS_SET, RACE_PAIR, NPROCS). The labels are what race detectors are measured by. This
-- development translates the programs, says what a race is, and proves the labels right or wrong.
--
-- Parts, and the files that model them:
--   Program    the statements of a test: `main` is a function of rank and size that yields a trace of
--              loads, stores and library calls, each with its line; loops and branches are those of
--              the source. Reads and writes of variables that no one-sided call can touch (rank, size,
--              loop counters, groups) are values of the model and leave no action.
--   TestCase   a test: file, label, PROC_NUM and `main`; what it means that the label is right.
--   Mpi        MPIRMA: Call (the calls and their arguments), Boilerplate (the code that all tests
--              share, from templates/MPIRMA/MPI-boilerplate.c.j2), Conflict, Sync, Atomic, Misc
--              and Hybrid (one definition for each file of the folder of that name, named after
--              the file), Results.
--   Shmem      SHMEM: Call, Boilerplate (from templates/SHMEM/shmem-boilerplate.c.j2), Conflict,
--              Sync, Atomic, Misc and Hybrid (one definition for each file), Results.
--   Gaspi      GASPI: Call, Boilerplate (from templates/GASPI/GASPI-boilerplate.c.j2), Conflict,
--              Sync, Atomic, Misc and Hybrid (one definition for each file), Results.
--   Race       what a data race is: Access (memory accesses and their conflicts), Execution (timings),
--              Order and Schedule (two accesses cannot, or can, overlap), Label.
--   Threads    the tests of the folders hybrid, whose processes have two OpenMP threads: Constructs
--              (those that they use, my_signal and my_wait), Teams (the order of the threads).
--   Usage      what else a test owes its library: collective calls in step, messages in pairs, bounds.
--
-- The communication libraries are not part of the repository and not modelled. What a library and
-- the scheduler do in a run is a parameter: an `Execution` gives arbitrary times to the points of the
-- processes and to the accesses of the one-sided calls. What is known of it is the hypothesis
-- `IsLegal`: processes run their statements in order, and the guarantees hold that the standards
-- document for the calls of the trace (Mpi/Guarantees, after MPI 3.1, chapter 11; Shmem/Guarantees,
-- after OpenSHMEM 1.5; Gaspi/Guarantees, after GASPI 17.1).
-- `Guarantees` states these hypotheses as data: which points come before which, and the points
-- between which each access takes place. Where the order is open (who gets a lock first, which
-- notification or signal a call has waited for) there are several such orders, and a legal execution
-- obeys one of them. A label holds if in every legal execution every overlap of conflicting accesses
-- is between the two labelled statements, and if for a labelled race some legal execution has such an
-- overlap, by accesses of the kinds in ACCESS_SET; that there is a legal execution at all is part of
-- it. The call of MPI_Abort or shmem_global_exit ends a process; gaspi_proc_term does not. Which
-- elements the numbers of gaspi_datatype_t stand for is taken from GPI-2 1.5.1 (see Dockerfile).
--
-- A process with threads is one trace, in which the actions of the first thread of a team stand
-- before those of the second. The rules of the library are applied to this trace; then the points of
-- the two threads become two sequences that are ordered only by fork, join and my_signal. Which thread
-- runs a construct makes no difference to the order, and a thread that runs two sections in turn is one
-- of the executions in which they are unordered. MPI_THREAD_MULTIPLE is taken to be supported in the
-- tests. The loop of my_wait is one action that ends after my_signal has begun.
--
-- A set of points is closed under the ordering in `rounds` sweeps over the edges, and a schedule is
-- found by as many; both are used only with a test of the result, so that too few of them could make
-- a proof fail but never make a false statement pass. `horizon` lies far beyond the times of any
-- schedule that is built. An integer has 4 bytes, a long and a double have 8.
--
-- Not modelled: the DESCRIPTION of a label, and the ACCESS_SET of one that announces no race (it
-- names no statements), CONSISTENCY_CALLS and SYNC_CALLS; values in memory (of the modelled tests
-- only the loop of my_wait depends on one); MPIRMA/sync/036; of SHMEM, atomic/001, sync/017, 018 and
-- 021 to 024 (polling loops, reductions, teams) and hybrid/022; the template sources under
-- templates, from which the C files are generated; the Python programs under util.
pub mod Base
pub mod Race
pub mod Program
pub mod Trace
pub mod Threads
pub mod TestCase
pub mod Usage
pub mod Mpi
pub mod Shmem
pub mod Gaspi
