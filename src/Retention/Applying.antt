-- ===== src/Retention/Applying.antt =====
-- `apply_retention` of src/quality/retention.py: the DELETE statements in their order, each on the
-- tables that the ones before it leave, and the comparison that commits or rolls back.
use pulse_data_platform.Base.{
  ℕ, ◌-◌, Bool, not, ◌&&◌, List, any, count, select, ltb, ◌==◌, Outcome, ok, err, if◌then◌else◌,
}
use pulse_data_platform.Alerts.Rows.{Uuid, AlertEvent}
use pulse_data_platform.Retention.Rows.{
  QualityRun, QualityResult, AnomalyResult, Database, RetentionCounts, RetentionReport, apply,
  RetentionError, unconfirmed, eligibility_changed,
}
use pulse_data_platform.Retention.Eligible.{
  days, is_eligible_alert, is_quality_source, names_anomaly, retention_counts,
}

-- `DELETE FROM … WHERE p`
abbrev pub delete {ℓ} : {A : Type ℓ} → (A → Bool) → List A → List A
delete p xs = select (λ x. not (p x)) xs

-- `DELETE … USING monitoring.alert_events a WHERE …`: the row's alert is expired.
abbrev pub is_alert_expired : ℕ → List AlertEvent → Uuid → Bool
is_alert_expired cutoff es i = any (λ a. i == a.alert_event_id && is_eligible_alert cutoff a) es

abbrev pub is_anomaly_expired : ℕ → List AlertEvent → AnomalyResult → Bool
is_anomaly_expired cutoff es r =
    ltb r.evaluated_at_utc cutoff && not (any (names_anomaly r.anomaly_id) es)

-- An alert names a result of the run.
abbrev pub is_run_named : List AlertEvent → List QualityResult → QualityRun → Bool
is_run_named es qs r =
    any
      (λ a.
        any
          (λ s.
            is_quality_source a.source_type
            && s.quality_result_id == a.source_id
            && s.quality_run_id == r.quality_run_id)
          qs)
      es

abbrev pub is_result_expired :
    ℕ → List AlertEvent → List QualityRun → List QualityResult → QualityResult → Bool
is_result_expired cutoff es rs qs q =
    any
      (λ r.
        q.quality_run_id == r.quality_run_id
        && ltb r.completed_at_utc cutoff
        && not (is_run_named es qs r))
      rs

abbrev pub is_run_expired : ℕ → List QualityResult → QualityRun → Bool
is_run_expired cutoff qs r =
    ltb r.completed_at_utc cutoff && not (any (λ q. q.quality_run_id == r.quality_run_id) qs)

-- The row counts of the statements, and the tables after the last.
unfoldable pub delete_expired : ℕ → Database → RetentionCounts × Database
unfolding is_eligible_alert
delete_expired cutoff m =
    let expired = is_alert_expired cutoff m.events in
    let events = delete (is_eligible_alert cutoff) m.events in
    let is_expired = is_result_expired cutoff events m.runs m.results in
    let results = delete is_expired m.results in
    (
      record {
        alert_deliveries = count (λ d. expired d.alert_event_id) m.deliveries;
        alert_event_history = count (λ h. expired h.alert_event_id) m.history;
        alert_occurrences = count (λ o. expired o.alert_event_id) m.occurrences;
        alert_events = count (is_eligible_alert cutoff) m.events;
        anomaly_results = count (is_anomaly_expired cutoff events) m.anomalies;
        quality_results = count is_expired m.results;
        quality_runs = count (is_run_expired cutoff results) m.runs;
      },
      record {
        monitoring = record {
          store = record {
            events = events;
            occurrences = delete (λ o. expired o.alert_event_id) m.occurrences;
            history = delete (λ h. expired h.alert_event_id) m.history;
          };
          deliveries = delete (λ d. expired d.alert_event_id) m.deliveries;
        };
        runs = delete (is_run_expired cutoff results) m.runs;
        results = results;
        anomalies = delete (is_anomaly_expired cutoff events) m.anomalies;
      },
    )

-- `deleted == counts`
abbrev pub counts_eq : RetentionCounts → RetentionCounts → Bool
counts_eq a b =
    a.alert_deliveries == b.alert_deliveries
    && a.alert_event_history == b.alert_event_history
    && a.alert_occurrences == b.alert_occurrences
    && a.alert_events == b.alert_events
    && a.anomaly_results == b.anomaly_results
    && a.quality_results == b.quality_results
    && a.quality_runs == b.quality_runs

-- `_counts` runs on `counted`, the DELETE statements on `m`: the lock of the retention keeps other
-- runs out, and a reporter or an operator may write the alerts in between.
unfoldable pub apply_between :
    Bool → ℕ → ℕ → Database → Database → Outcome RetentionError (RetentionReport × Database)
apply_between confirm retained now counted m =
    let cutoff = now - days retained in
    let counts = retention_counts cutoff counted in
    let done = delete_expired cutoff m in
    if not confirm
    then err unconfirmed
    else if counts_eq done.0 counts
    then ok (
      record { mode = apply; retention_days = retained; cutoff_at_utc = cutoff; counts = counts },
      done.1,
    )
    else err eligibility_changed

-- A run that nothing writes to the tables of.
unfoldable pub apply_retention :
    Bool → ℕ → ℕ → Database → Outcome RetentionError (RetentionReport × Database)
unfolding apply_between
apply_retention confirm retained now m = apply_between confirm retained now m m
