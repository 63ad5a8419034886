-- ===== src/Alerts.antt =====
-- The alert lifecycle (src/quality/alert_service.py over src/quality/monitoring.sql): one module
-- for the rows, one for each operation, and the proofs beside them.
pub mod Rows
pub mod Canonical
pub mod Identity
pub mod Lifecycle
pub mod Recording
pub mod Changing
pub mod Invariant
pub mod Recorded
pub mod Validity
pub mod Transitions
pub mod Replays
pub mod Progress
pub mod Totality
pub mod Incidents
pub mod Listing
pub mod Examples
