-- ===== src/ChatTcp.antt =====
-- Lab 11/server.c: the chat server over TCP.
pub mod Registry
pub mod Messages
pub mod Session
pub mod System
pub mod Table
pub mod Slots
pub mod Client
pub mod Delivery
pub mod Listing
pub mod Registration
pub mod Protocol
pub mod Threads
pub mod Closing
mod Examples
mod ClientExamples
pub mod Steps
pub mod Invariant
