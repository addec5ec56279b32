-- ===== src/Spooler.antt =====
-- Lab 8/zad1.c: the print spooler over shared memory and semaphores.
pub mod Defs
pub mod Counts
pub mod Balance
pub mod Invariant
pub mod Ring
pub mod Slots
pub mod Fifo
pub mod Blocking
mod Examples
