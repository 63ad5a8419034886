-- ===== src/Retention/Eligible.antt =====
-- `_eligible_ctes`, `_counts` and `preview_retention` of src/quality/retention.py. EXISTS is `any`;
-- a comparison with a missing time is not true.
use pulse_data_platform.Base.{
  ℕ, ◌*◌, ◌-◌, Bool, true, false, not, ◌&&◌, Option, none, some, List, any, count, ltb, ◌==◌,
}
use pulse_data_platform.Alerts.Rows.{
  Uuid, SourceType, quality_failure, anomaly, AlertEvent, is_resolved,
}
use pulse_data_platform.Retention.Rows.{
  QualityRun, QualityResult, AnomalyResult, Database, RetentionCounts, RetentionReport, preview,
}

-- `timedelta(days=d)`, in microseconds. No instant is before 0, so a cutoff that would be is 0.
abbrev pub days : ℕ → ℕ
days d = d * 86_400_000_000

abbrev pub is_before : ℕ → Option ℕ → Bool
is_before cutoff none = false
is_before cutoff (some t) = ltb t cutoff

-- `status='RESOLVED' AND resolved_at_utc < cutoff`
unfoldable pub is_eligible_alert : ℕ → AlertEvent → Bool
unfolding is_resolved
is_eligible_alert cutoff e = is_resolved e.status && is_before cutoff e.resolved_at_utc

abbrev pub is_quality_source : SourceType → Bool
is_quality_source quality_failure = true
is_quality_source _ = false

abbrev pub is_anomaly_source : SourceType → Bool
is_anomaly_source anomaly = true
is_anomaly_source _ = false

-- `a.source_type='QUALITY_FAILURE' AND a.source_id=q.quality_result_id`
abbrev pub names_result : Uuid → AlertEvent → Bool
names_result q a = is_quality_source a.source_type && a.source_id == q

-- `a.source_type='ANOMALY' AND a.source_id=r.anomaly_id`
abbrev pub names_anomaly : Uuid → AlertEvent → Bool
names_anomaly r a = is_anomaly_source a.source_type && a.source_id == r

module _ (cutoff : ℕ) (es : List AlertEvent) where
  -- The identity is in `eligible_alerts`.
  unfoldable pub is_eligible_id : Uuid → Bool
  is_eligible_id i = any (λ e. e.alert_event_id == i && is_eligible_alert cutoff e) es

  -- An alert that stays names the result.
  unfoldable pub is_result_needed : Uuid → Bool
  is_result_needed q = any (λ a. names_result q a && not (is_eligible_id a.alert_event_id)) es

  -- `eligible_quality_runs`
  unfoldable pub is_eligible_run : List QualityResult → QualityRun → Bool
  is_eligible_run qs r =
      ltb r.completed_at_utc cutoff
      && not (
          any (λ q. q.quality_run_id == r.quality_run_id && is_result_needed q.quality_result_id)
            qs)

  -- `eligible_anomalies`
  unfoldable pub is_eligible_anomaly : AnomalyResult → Bool
  is_eligible_anomaly r =
      ltb r.evaluated_at_utc cutoff
      && not (any (λ a. names_anomaly r.anomaly_id a && not (is_eligible_id a.alert_event_id)) es)

unfoldable pub retention_counts : ℕ → Database → RetentionCounts
unfolding is_eligible_id is_eligible_alert is_eligible_run is_result_needed is_eligible_anomaly
retention_counts cutoff m =
    let is_eligible = is_eligible_id cutoff m.events in
    let is_run = is_eligible_run cutoff m.events m.results in
    record {
      alert_deliveries = count (λ d. is_eligible d.alert_event_id) m.deliveries;
      alert_event_history = count (λ h. is_eligible h.alert_event_id) m.history;
      alert_occurrences = count (λ o. is_eligible o.alert_event_id) m.occurrences;
      alert_events = count (is_eligible_alert cutoff) m.events;
      anomaly_results = count (is_eligible_anomaly cutoff m.events) m.anomalies;
      quality_results =
          count (λ q. any (λ r. r.quality_run_id == q.quality_run_id && is_run r) m.runs) m.results;
      quality_runs = count is_run m.runs;
    }

unfoldable pub preview_retention : ℕ → ℕ → Database → RetentionReport
preview_retention retained now m = record {
  mode = preview;
  retention_days = retained;
  cutoff_at_utc = now - days retained;
  counts = retention_counts (now - days retained) m;
}
