-- ===== src/Delivery.antt =====
-- Alert delivery (src/quality/delivery.py and src/quality/notifications.py): the outbox rows, the
-- configuration, one module for each operation, and the proofs beside them.
pub mod Rows
pub mod Settings
pub mod Candidates
pub mod Claiming
pub mod Attempts
pub mod Running
pub mod Ledger
pub mod Interleavings
pub mod Settled
pub mod Accounting
pub mod Columns
pub mod Promptness
pub mod Totality
pub mod Examples
