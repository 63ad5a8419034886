-- ===== src/Retention/Evidence.antt =====
-- What a run of `apply_retention` of src/quality/retention.py keeps: active alerts, and the quality
-- results and anomalies that an alert still names.
use pulse_data_platform.Base.{
  ℕ, ◌-◌, ◌≡◌, refl, Bool, true, false, not, ◌&&◌, List, arith, All, All-map, All-find, any, count,
  ltb, ◌==◌, any-member, any-swap, any_weaken, any-eq, any-false, ◌∙◌, find_sound, All-select,
  count-select_All, count-select_kept, count-select-le, taken_of_count, count-zero_of_any,
  found_of_count, Bool-cases, inl, inr, ok, String,
}
use pulse_data_platform.Alerts.Rows.{Uuid, AlertEvent, is_active, is_resolved, is_active_for}
use pulse_data_platform.Retention.Rows.{
  QualityRun, QualityResult, AnomalyResult, Database, RetentionReport,
}
use pulse_data_platform.Retention.Eligible.{
  days, is_eligible_alert, names_result, names_anomaly, is_quality_source,
}
use pulse_data_platform.Retention.Applying.{
  delete, delete_expired, is_anomaly_expired, is_run_named, is_result_expired, is_run_expired,
  apply_retention,
}

abbrev pub has_result_id : Uuid → QualityResult → Bool
has_result_id i q = q.quality_result_id == i

abbrev pub has_anomaly_id : Uuid → AnomalyResult → Bool
has_anomaly_id i r = r.anomaly_id == i

abbrev pub has_run_id : Uuid → QualityRun → Bool
has_run_id i r = r.quality_run_id == i

abbrev pub is_result_of : Uuid → QualityResult → Bool
is_result_of i q = q.quality_run_id == i

-- The foreign key of monitoring.quality_results.
abbrev pub IsLinked : Database → Type 0
IsLinked m = (i : Uuid) → count (has_run_id i) m.runs ≡ 0 → count (is_result_of i) m.results ≡ 0

-- `left` is what a run with the cutoff leaves of `m`.
pub record Retained (cutoff : ℕ) (m left : Database) : Type 0 where
  pub expired : All (λ e. is_eligible_alert cutoff e ≡ false) left.events
  pub active : (k : String) → count (is_active_for k) left.events ≡ count (is_active_for k) m.events
  pub results :
      All
        (λ a.
          (i : Uuid)
          → names_result i a ≡ true
          → count (has_result_id i) left.results ≡ count (has_result_id i) m.results)
        left.events
  pub anomalies :
      All
        (λ a.
          (i : Uuid)
          → names_anomaly i a ≡ true
          → count (has_anomaly_id i) left.anomalies ≡ count (has_anomaly_id i) m.anomalies)
        left.events
  pub linked : IsLinked m → IsLinked left

module _ (cutoff : ℕ) (m : Database) where
  abbrev events : List AlertEvent
  events = delete (is_eligible_alert cutoff) m.events

  abbrev is_gone : QualityResult → Bool
  is_gone = is_result_expired cutoff events m.runs m.results

  abbrev results : List QualityResult
  results = delete is_gone m.results

  anomaly_kept :
      (i : Uuid)
      → any (names_anomaly i) events ≡ true
      → count (has_anomaly_id i) (delete (is_anomaly_expired cutoff events) m.anomalies)
        ≡ count (has_anomaly_id i) m.anomalies
  anomaly_kept i named =
      count-select_kept (has_anomaly_id i) (λ r. not (is_anomaly_expired cutoff events r))
        (λ r here. let this : r.anomaly_id ≡ i = ground arith in rw (this, named) (ground arith))
        m.anomalies

  run_named :
      All
        (λ s.
          (r : QualityRun)
          → any (λ a. names_result s.quality_result_id a) events ≡ true
          → (s.quality_run_id == r.quality_run_id) ≡ true
          → is_run_named events m.results r ≡ true)
        m.results
  run_named =
      let by_alert = λ (r : QualityRun) (s : QualityResult) (a : AlertEvent).
        is_quality_source a.source_type
        && s.quality_result_id == a.source_id
        && s.quality_run_id == r.quality_run_id in
      let named_by = λ (r : QualityRun) (s : QualityResult). any (by_alert r s) events in
      All-map (λ s. (r : QualityRun) → named_by r s ≡ true → any (named_by r) m.results ≡ true)
        (λ s.
          (r : QualityRun)
          → any (λ a. names_result s.quality_result_id a) events ≡ true
          → (s.quality_run_id == r.quality_run_id) ≡ true
          → is_run_named events m.results r ≡ true)
        (λ s found r named same. rw (any-swap (λ a q. by_alert r q a) events m.results) (
          found r (
            any_weaken (names_result s.quality_result_id) (by_alert r s) (λ a h. ground arith)
              events named)))
        m.results (any-member named_by m.results)

  result_kept :
      (i : Uuid)
      → any (names_result i) events ≡ true
      → count (has_result_id i) results ≡ count (has_result_id i) m.results
  result_kept i named =
      count-select_All (has_result_id i) (λ q. not (is_gone q)) m.results
        (All-map
          (λ s.
            (r : QualityRun)
            → any (λ a. names_result s.quality_result_id a) events ≡ true
            → (s.quality_run_id == r.quality_run_id) ≡ true
            → is_run_named events m.results r ≡ true)
          (λ s. has_result_id i s ≡ true → not (is_gone s) ≡ true)
          (λ s needs here.
            let this : s.quality_result_id ≡ i = ground arith in
            let kept : is_gone s ≡ false =
              any-eq
                (λ r.
                  s.quality_run_id == r.quality_run_id
                  && ltb r.completed_at_utc cutoff
                  && not (is_run_named events m.results r))
                (λ r. false) (λ r. ground (arith, needs r (rw this named))) m.runs
              ∙ any-false m.runs in
            rw kept refl)
          m.results run_named)

  runs_linked :
      IsLinked m
      → (i : Uuid) → count (has_run_id i) (delete (is_run_expired cutoff results) m.runs) ≡ 0
      → count (is_result_of i) results ≡ 0
  runs_linked linked i none_left = elim (Bool-cases (ltb 0 (count (has_run_id i) m.runs))) [
    | inl some_run ↦
        let (r, found) = found_of_count (has_run_id i) m.runs (ground arith) in
        let this : has_run_id i r ≡ true = find_sound (has_run_id i) m.runs r found in
        let one_run : r.quality_run_id ≡ i = ground arith in
        let taken =
          All-find (λ x. has_run_id i x ≡ true → not (is_run_expired cutoff results x) ≡ false)
            (has_run_id i) m.runs r
            (taken_of_count (has_run_id i) (λ x. not (is_run_expired cutoff results x)) m.runs
              none_left)
            found this in
        let empty : any (is_result_of r.quality_run_id) results ≡ false = ground arith in
        count-zero_of_any (is_result_of i) results (rw one_run at empty)
    | inr no_run ↦
        let fewer = count-select-le (is_result_of i) (λ q. not (is_gone q)) m.results in
        omega (arith, linked i (ground arith), fewer)
  ]

  active_kept : (k : String) → count (is_active_for k) events ≡ count (is_active_for k) m.events
  active_kept k =
      count-select_kept (is_active_for k) (λ e. not (is_eligible_alert cutoff e))
        (λ e here. unfold is_eligible_alert is_resolved is_active in ground arith) m.events

  pub delete_expired-Retained : Retained cutoff m (delete_expired cutoff m).1
  unfolding delete_expired
  delete_expired-Retained = record {
    expired =
        All-map (λ e. not (is_eligible_alert cutoff e) ≡ true)
          (λ e. is_eligible_alert cutoff e ≡ false) (λ e h. ground arith) events
          (All-select (λ e. not (is_eligible_alert cutoff e)) m.events);
    active = active_kept;
    results =
        All-map (λ a. (i : Uuid) → names_result i a ≡ true → any (names_result i) events ≡ true)
          (λ a.
            (i : Uuid)
            → names_result i a ≡ true
            → count (has_result_id i) results ≡ count (has_result_id i) m.results)
          (λ a found i h. result_kept i (found i h)) events (any-member names_result events);
    anomalies =
        All-map (λ a. (i : Uuid) → names_anomaly i a ≡ true → any (names_anomaly i) events ≡ true)
          (λ a.
            (i : Uuid)
            → names_anomaly i a ≡ true
            → count (has_anomaly_id i) (delete (is_anomaly_expired cutoff events) m.anomalies)
              ≡ count (has_anomaly_id i) m.anomalies)
          (λ a found i h. anomaly_kept i (found i h)) events (any-member names_anomaly events);
    linked = runs_linked;
  }

-- A retention run that commits takes no active alert; it leaves no alert that was resolved before
-- the cutoff; it leaves every quality result and anomaly that an alert still names; and a quality
-- result that is left has its run, if each had one before.
pub apply_retention-Retained :
    (confirm : Bool) (retained now : ℕ) (m left : Database) (report : RetentionReport)
    → apply_retention confirm retained now m ≡ ok (report, left)
    → Retained (now - days retained) m left
unfolding apply_retention
apply_retention-Retained confirm retained now m after report h =
    let done : (delete_expired (now - days retained) m).1 ≡ after = ground arith in
    rw (← done) (delete_expired-Retained (now - days retained) m)
