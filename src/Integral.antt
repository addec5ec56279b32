-- ===== src/Integral.antt =====
-- Lab 6 and Lab 9: the integral of 4 / (x * x + 1) by rectangles, over threads, processes and FIFOs.
pub mod Double
pub mod Riemann
pub mod Threads
pub mod Gathering
pub mod Started
pub mod Polling
pub mod Processes
pub mod Pipes
pub mod Forks
pub mod Completion
pub mod Agreement
pub mod Fifos
pub mod Answers
pub mod Replies
pub mod Dialogue
pub mod Reached
mod Examples
