-- ===== src/Exchange.antt =====
-- Test 2: the producer and the consumer of main.c, and the checks of checks.h.
pub mod Defs
pub mod Rounds
pub mod Invariant
pub mod Checks
pub mod Progress
pub mod Ending
mod Examples
