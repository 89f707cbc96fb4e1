-- ===== src/Chat.antt =====
-- Chat System/Server: the chat server's messages and its handling of them.
pub mod Message
pub mod Server
mod Tests
