-- ===== src/Retention/Applied.antt =====
-- When a confirmed `apply_retention` of src/quality/retention.py commits, and what it reports.
use pulse_data_platform.Base.{
  ap, err, ◌≢◌, Bool-cases, inl, inr, Outcome, ℕ, ◌-◌, ◌≤◌, ◌≡◌, refl, true, List, arith, All-map,
  any, count, ◌&&◌, ◌==◌, any_self, count-eq, count-eq_All, ok,
}
use pulse_data_platform.Alerts.Rows.{Uuid, AlertEvent, has_id}
use pulse_data_platform.Alerts.Invariant.{IsValid}
use pulse_data_platform.Retention.Rows.{
  Database, RetentionCounts, RetentionReport, RetentionError, eligibility_changed, apply,
}
use pulse_data_platform.Retention.Eligible.{
  days, is_eligible_id, is_eligible_alert, is_eligible_run, is_eligible_anomaly, retention_counts,
  preview_retention,
}
use pulse_data_platform.Retention.Applying.{
  delete, delete_expired, is_alert_expired, is_anomaly_expired, is_result_expired, is_run_expired,
  counts_eq, apply_between, apply_retention,
}
use pulse_data_platform.Retention.Agreement.{
  is_alert_expired-eq, is_anomaly_expired-eq, is_result_expired-eq, run_expired,
}

module _ (cutoff : ℕ) (m : Database) (unique : (i : Uuid) → count (has_id i) m.events ≤ 1) where
  abbrev left_events : List AlertEvent
  left_events = delete (is_eligible_alert cutoff) m.events

  runs-eq :
      count
        (is_run_expired cutoff
          (delete (is_result_expired cutoff left_events m.runs m.results) m.results))
        m.runs
      ≡ count (is_eligible_run cutoff m.events m.results) m.runs
  runs-eq =
      let test = is_eligible_run cutoff m.events m.results in
      let run_gone =
        is_run_expired cutoff
          (delete (is_result_expired cutoff left_events m.runs m.results) m.results) in
      count-eq_All run_gone test m.runs (
        All-map
          (λ r.
            test r ≡ true → any (λ e. e.quality_run_id == r.quality_run_id && test e) m.runs ≡ true)
          (λ r. run_gone r ≡ test r)
          (λ r found. run_expired cutoff m.events unique m.runs m.results r found) m.runs
          (any_self (λ r. r.quality_run_id) test m.runs))

  pub deleted_counts : (delete_expired cutoff m).0 ≡ retention_counts cutoff m
  unfolding delete_expired retention_counts
  deleted_counts =
      let by_id = is_alert_expired-eq cutoff m.events in
      let deliveries =
        count-eq (λ d. is_alert_expired cutoff m.events d.alert_event_id)
          (λ d. is_eligible_id cutoff m.events d.alert_event_id) (λ d. by_id d.alert_event_id)
          m.deliveries in
      let history =
        count-eq (λ d. is_alert_expired cutoff m.events d.alert_event_id)
          (λ d. is_eligible_id cutoff m.events d.alert_event_id) (λ d. by_id d.alert_event_id)
          m.history in
      let occurrences =
        count-eq (λ d. is_alert_expired cutoff m.events d.alert_event_id)
          (λ d. is_eligible_id cutoff m.events d.alert_event_id) (λ d. by_id d.alert_event_id)
          m.occurrences in
      let anomalies =
        count-eq (is_anomaly_expired cutoff left_events) (is_eligible_anomaly cutoff m.events)
          (is_anomaly_expired-eq cutoff m.events unique) m.anomalies in
      let results =
        count-eq (is_result_expired cutoff left_events m.runs m.results)
          (λ q.
            any
              (λ r.
                r.quality_run_id == q.quality_run_id && is_eligible_run cutoff m.events m.results r)
              m.runs)
          (is_result_expired-eq cutoff m.events unique m.runs m.results) m.results in
      rw (deliveries, history, occurrences, anomalies, results, runs-eq) refl

counts_eq_refl : (c : RetentionCounts) → counts_eq c c ≡ true
counts_eq_refl c = ground arith

counts_eq_sound : (a b : RetentionCounts) → counts_eq a b ≡ true → a ≡ b
counts_eq_sound a b h =
    let deliveries : a.alert_deliveries ≡ b.alert_deliveries = ground arith in
    let history : a.alert_event_history ≡ b.alert_event_history = ground arith in
    let occurrences : a.alert_occurrences ≡ b.alert_occurrences = ground arith in
    let events : a.alert_events ≡ b.alert_events = ground arith in
    let anomalies : a.anomaly_results ≡ b.anomaly_results = ground arith in
    let results : a.quality_results ≡ b.quality_results = ground arith in
    let runs : a.quality_runs ≡ b.quality_runs = ground arith in
    λ i. record {
      alert_deliveries = deliveries i;
      alert_event_history = history i;
      alert_occurrences = occurrences i;
      alert_events = events i;
      anomaly_results = anomalies i;
      quality_results = results i;
      quality_runs = runs i;
    }

-- The two ways that a confirmed run ends: the previews of the tables that were counted and of the
-- tables that were deleted from agree, or they do not.
pub data Answered (retained now : ℕ) (counted m : Database)
    : Outcome RetentionError (RetentionReport × Database) → Type 0 where
  commits :
      preview_retention retained now counted ≡ preview_retention retained now m
      → Answered retained now counted m (
          ok (
            record (preview_retention retained now counted) { mode = apply },
            (delete_expired (now - days retained) m).1,
          ))
  rolls_back :
      preview_retention retained now counted ≢ preview_retention retained now m
      → Answered retained now counted m (err eligibility_changed)

-- A confirmed run counts on one state of the tables and deletes from another, whose alerts are well
-- formed and which other writers may have made since. It commits exactly if previews of the two
-- states agree; then it reports their counts, with the cutoff, and leaves what the DELETE
-- statements leave. Otherwise it rolls back for changed eligibility. A run that no other writer
-- comes between never rolls back for that.
pub apply_retention_returns :
    (retained now : ℕ) (counted m : Database)
    → IsValid m.store
    → Answered retained now counted m (apply_between true retained now counted m)
      × ((left : Database) × (apply_retention true retained now m
            ≡ ok (record (preview_retention retained now m) { mode = apply }, left)))
unfolding apply_retention apply_between preview_retention
apply_retention_returns retained now counted m valid =
    let cutoff = now - days retained in
    let same = deleted_counts cutoff m valid.one_event in
    (
      elim (Bool-cases (counts_eq (retention_counts cutoff m) (retention_counts cutoff counted))) [
        | inl agree ↦
            let equal =
              counts_eq_sound (retention_counts cutoff m) (retention_counts cutoff counted) agree in
            rw (same, agree) (commits (rw equal refl))
        | inr differ ↦
            rw (same, differ)
              (rolls_back (λ h. absurd (
                let equal : retention_counts cutoff counted ≡ retention_counts cutoff m =
                  ap (λ r. r.counts) h in
                let shown = counts_eq_refl (retention_counts cutoff m) in cc)))
      ],
      ((delete_expired cutoff m).1, rw (same, counts_eq_refl (retention_counts cutoff m)) refl),
    )
