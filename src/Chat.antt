-- ===== src/Chat.antt =====
-- The chat of a company: backend/app/services/chat_service.py. A call works in one transaction: it
-- answers with the tables that it leaves, or with an error, after which the tables are as before.
pub mod Tables
pub mod Access
pub mod Members
pub mod Messages
pub mod Reading
pub mod Calls
pub mod Steps
pub mod Outsiders
pub mod Sound
