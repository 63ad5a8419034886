-- ===== src/Retention/Rows.antt =====
-- The rows of monitoring.quality_runs, quality_results and anomaly_results
-- (src/quality/monitoring.sql), with the columns that src/quality/retention.py reads.
use pulse_data_platform.Base.{ℕ, ◌+◌, List}
use pulse_data_platform.Alerts.Rows.{Uuid}
use pulse_data_platform.Delivery.Rows.{Monitoring}

pub record QualityRun : Type 0 where
  pub quality_run_id : Uuid
  pub completed_at_utc : ℕ

pub record QualityResult : Type 0 where
  pub quality_result_id : Uuid
  pub quality_run_id : Uuid

pub record AnomalyResult : Type 0 where
  pub anomaly_id : Uuid
  pub evaluated_at_utc : ℕ

-- All the tables of the schema `monitoring`.
pub record Database : Type 0 where
  pub monitoring : Monitoring
  pub open monitoring use *
  pub runs : List QualityRun
  pub results : List QualityResult
  pub anomalies : List AnomalyResult

-- COUNT_ORDER
pub record RetentionCounts : Type 0 where
  pub alert_deliveries : ℕ
  pub alert_event_history : ℕ
  pub alert_occurrences : ℕ
  pub alert_events : ℕ
  pub anomaly_results : ℕ
  pub quality_results : ℕ
  pub quality_runs : ℕ

pub data RetentionMode : Type 0 where
  preview apply : RetentionMode

pub record RetentionReport : Type 0 where
  pub mode : RetentionMode
  pub retention_days : ℕ
  pub cutoff_at_utc : ℕ
  pub counts : RetentionCounts

-- `sum(self.counts.values())`
unfoldable pub total_rows : RetentionReport → ℕ
total_rows r =
    let c = r.counts in
    c.alert_deliveries + c.alert_event_history + c.alert_occurrences + c.alert_events
    + c.anomaly_results + c.quality_results + c.quality_runs

-- The messages of `RetentionError`, and the `PersistenceError` of a rollback.
pub data RetentionError : Type 0 where
  days_not_an_integer days_out_of_range unconfirmed : RetentionError
  eligibility_changed : RetentionError
