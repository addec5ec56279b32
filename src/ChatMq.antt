-- ===== src/ChatMq.antt =====
-- Lab 7: the chat over message queues.
pub mod Defs
pub mod Table
pub mod Delivery
pub mod Client
pub mod Conversation
mod Examples
