-- ===== src/Communication/Conversation.antt =====
-- The durable conversation state: src/core/communication/domain/conversation-state.ts, its port
-- and the SQLite adapter of that port.
pub mod Snapshot
pub mod Json
pub mod Serialization
pub mod Tables
pub mod Checkpoint
pub mod Barrier
pub mod Reconcile
pub mod Lookups
pub mod Step
pub mod History
pub mod Checkpoints
pub mod Replies
pub mod Barriers
pub mod RoundTrip
mod Tests
