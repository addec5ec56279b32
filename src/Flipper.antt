-- ===== src/Flipper.antt =====
-- Lab 3/flipper.c: the program that writes every text file of a directory backwards.
pub mod Defs
pub mod Swap
pub mod Files
mod Examples
