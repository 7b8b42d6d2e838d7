-- ===== src/Communication.antt =====
-- src/core/communication and its SQLite adapters, src/host/storage/sqlite/communication.
pub mod Turn
pub mod Transaction
pub mod Ledger
pub mod KillSwitch
pub mod Dispatcher
pub mod Outbox
pub mod Conversation
pub mod Recovery
