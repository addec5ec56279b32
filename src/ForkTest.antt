-- ===== src/ForkTest.antt =====
-- Test 1: the exercise on signals and processes.
pub mod Defs
pub mod Moments
pub mod Kill
mod Examples
