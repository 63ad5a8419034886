-- ===== src/Retention/Examples.antt =====
-- Witnesses for the theorems about retention: a resolved alert that is old, and its result's run.
use pulse_data_platform.Base.{ℕ, is_blank, ◌≡◌, refl, Bool, true, none, some, [], ◌∷◌, ok, err, pos}
use pulse_data_platform.Alerts.Rows.{resolved, open_status, AlertEvent, Store}
use pulse_data_platform.Alerts.Recording.{audit, receipt, opened, open_incident}
use pulse_data_platform.Alerts.Changing.{transitioned, change_status}
use pulse_data_platform.Alerts.Invariant.{IsValid}
use pulse_data_platform.Alerts.Transitions.{change_status-IsValid}
use pulse_data_platform.Alerts.Examples.{opened_store, opened_store-IsValid, report}
use pulse_data_platform.Retention.Rows.{
  Database, RetentionReport, RetentionCounts, apply, total_rows, days_out_of_range, unconfirmed,
  eligibility_changed,
}
use pulse_data_platform.Retention.Settings.{days_of}
use pulse_data_platform.Retention.Eligible.{preview_retention, retention_counts, is_eligible_alert}
use pulse_data_platform.Retention.Applying.{apply_between, apply_retention, delete_expired}
use pulse_data_platform.Retention.Applied.{Answered, apply_retention_returns}
use pulse_data_platform.Retention.Validity.{apply_retention-IsValid}
use pulse_data_platform.Retention.Evidence.{Retained, apply_retention-Retained}

abbrev row : AlertEvent
row = opened 1 (report 9 100) "orders" 100

-- The alert of the examples on alerts, resolved at the instant 8.
abbrev resolved_store : Store
resolved_store = record opened_store {
  events = transitioned resolved "ops" none 8 row ∷ [];
  history = audit 1 (some open_status) resolved "ops" none 8 ∷ opened_store.history;
}

abbrev database : Database
database = record {
  monitoring = record { store = resolved_store; deliveries = [] };
  runs = record { quality_run_id = 60; completed_at_utc = 7 } ∷ [];
  results = record { quality_result_id = 70; quality_run_id = 60 } ∷ [];
  anomalies = record { anomaly_id = 80; evaluated_at_utc = 864_000_000_000_000 } ∷ [];
}

-- What was counted before the alert was reported.
abbrev empty_database : Database
empty_database = record database {
  monitoring = record {
    store = record { events = []; occurrences = []; history = [] };
    deliveries = [];
  };
}

abbrev left : Database
left = record {
  monitoring = record {
    store = record { events = []; occurrences = []; history = [] };
    deliveries = [];
  };
  runs = [];
  results = [];
  anomalies = record { anomaly_id = 80; evaluated_at_utc = 864_000_000_000_000 } ∷ [];
}

abbrev counts : RetentionCounts
counts = record {
  alert_deliveries = 0;
  alert_event_history = 2;
  alert_occurrences = 1;
  alert_events = 1;
  anomaly_results = 0;
  quality_results = 1;
  quality_runs = 1;
}

abbrev done : RetentionReport
done = record { mode = apply; retention_days = 90; cutoff_at_utc = 100_000_000; counts = counts }

-- 90 days and 100 seconds after the epoch.
abbrev now : ℕ
now = 7_776_100_000_000

days_test : days_of (some (pos 0)) ≡ err days_out_of_range
unfolding days_of
days_test = refl

unconfirmed_test : apply_retention Bool.false 90 now database ≡ err unconfirmed
unfolding apply_retention
unconfirmed_test = refl

apply_test : apply_retention true 90 now database ≡ ok (done, left)
unfolding apply_retention apply_between retention_counts delete_expired is_eligible_alert opened
    audit transitioned open_incident receipt
apply_test = refl

-- The run of the result is named by an alert once it is reported, and is no longer expired.
changed_test : apply_between true 90 now empty_database database ≡ err eligibility_changed
unfolding apply_between retention_counts delete_expired is_eligible_alert opened audit transitioned
    open_incident receipt
changed_test = refl

total_rows_test : total_rows done ≡ 6
unfolding total_rows
total_rows_test = refl

resolve_test : change_status 8 1 resolved "ops" none opened_store ≡ ok resolved_store
unfolding change_status opened is_blank open_incident
resolve_test = refl

resolved_store-IsValid : IsValid resolved_store
resolved_store-IsValid =
    (change_status-IsValid 8 1 resolved "ops" none opened_store resolved_store opened_store-IsValid
      resolve_test).0

apply_retention_returns_example :
    Answered 90 now empty_database database (apply_between true 90 now empty_database database)
    × ((after : Database) × (apply_retention true 90 now database
          ≡ ok (record (preview_retention 90 now database) { mode = apply }, after)))
apply_retention_returns_example =
    apply_retention_returns 90 now empty_database database resolved_store-IsValid

apply_retention-IsValid_example : IsValid left.store
apply_retention-IsValid_example =
    apply_retention-IsValid true 90 now database left done resolved_store-IsValid apply_test

apply_retention-Retained_example : Retained 100_000_000 database left
apply_retention-Retained_example =
    apply_retention-Retained true 90 now database left done apply_test
