-- ===== src/Quality.antt =====
-- The results of quality checks and how they are stored: src/quality/models.py,
-- src/quality/execution.py and src/quality/persistence.py.
pub mod Results
pub mod Runs
pub mod Persisting
pub mod Summaries
pub mod Alerting
pub mod Upserts
pub mod Turns
pub mod Persisted
pub mod Examples
