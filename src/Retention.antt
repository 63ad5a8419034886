-- ===== src/Retention.antt =====
-- Retention of the monitoring history: src/quality/retention.py.
pub mod Rows
pub mod Settings
pub mod Eligible
pub mod Applying
pub mod Agreement
pub mod Applied
pub mod Validity
pub mod Evidence
pub mod Examples
