-- ===== src/Signals.antt =====
-- Lab 5: the program that obeys signals, and the one that sends them.
pub mod Catcher
pub mod Requests
pub mod Sender
pub mod Reactions
mod Examples
