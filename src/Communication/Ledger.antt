-- ===== src/Communication/Ledger.antt =====
-- src/host/storage/sqlite/communication/sqlite-communication-turn-ledger-port.ts: the durable turn
-- ledger. `Rows` has its tables and statements, `Admission` and `Facts` its methods.
pub mod Rows
pub mod Step
pub mod Admission
pub mod Acceptance
pub mod Facts
pub mod Invariant
pub mod Runs
pub mod History
pub mod Observation
pub mod Concurrency
pub mod Fifo
mod Tests
