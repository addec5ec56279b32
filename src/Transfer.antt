-- ===== src/Transfer.antt =====
-- Test 1: a file that goes through a pipe in blocks.
pub mod Defs
pub mod Verdict
pub mod Phases
pub mod Progress
pub mod Passing
mod Examples
