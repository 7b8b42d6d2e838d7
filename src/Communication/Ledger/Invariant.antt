-- ===== src/Communication/Ledger/Invariant.antt =====
-- The ledger's invariant: unique keys, sequence numbers below their counters and different within a
-- conversation, no number before acceptance, and both queue bounds.
pub mod Keys
pub mod Capacity
pub mod Sequence
