-- ===== src/ChatUdp.antt =====
-- Lab 12/server.c: the chat server over UDP.
pub mod Registry
pub mod Messages
pub mod Table
pub mod Registration
pub mod Distinct
pub mod Delivery
pub mod Client
pub mod Running
pub mod Stopping
pub mod Protocol
mod Examples
mod ClientExamples
