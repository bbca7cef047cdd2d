-- ===== src/Threads.antt =====
-- Tests whose processes have two OpenMP threads (MPIRMA, SHMEM and GASPI, folder hybrid): the
-- constructs that they use (`Constructs`), and the order in which the threads run (`Teams`).
pub mod Constructs
pub mod Teams
