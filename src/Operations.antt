-- ===== src/Operations.antt =====
-- The lifecycle of operational orders: src/operations/models.py.
pub mod Statuses
pub mod Events
pub mod Latest
pub mod Revisions
pub mod Fulfilment
pub mod Examples
