-- ===== src/Collatz.antt =====
-- Lab 2/collatz.c: the test of the Collatz conjecture.
pub mod Defs
pub mod Steps
pub mod Client
pub mod Printing
mod Examples
