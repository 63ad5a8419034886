-- ===== src/Quality/Persisting.antt =====
-- `persist_quality_run` of src/quality/persistence.py: one transaction. `encode` is `json_value`,
-- `fresh` and `now` are what `uuid4` and the database clock give to the calls of `record_alert`.
use Prim.Native.String.{◌++◌ as ◌<>◌}
use pulse_data_platform.Base.{
  ℕ, suc, String, Bool, not, ◌&&◌, ◌||◌, none, some, List, [], ◌∷◌, map, any, select, update,
  str_eq, ◌==◌, ltb, is_empty, Outcome, ok, err, ◌>>=◌, if◌then◌else◌,
}
use pulse_data_platform.Base.Sorting.{sort_by}
use pulse_data_platform.Base.Strict.{by, not_after, text_less}
use pulse_data_platform.Alerts.Rows.{
  Uuid, aware, quality_failure, Severity, critical, Json, Execution, Store,
}
use pulse_data_platform.Alerts.Identity.{AlertError}
use pulse_data_platform.Alerts.Recording.{Observation, record_alert}
use pulse_data_platform.Quality.Results.{
  Status, CheckDetails, QualityResult, QualitySummary, is_critical_failure, summarize,
}
use pulse_data_platform.Quality.Runs.{DatasetQualityRun, run_key, logical_key}

-- A row of monitoring.quality_runs.
pub record RunRow : Type 0 where
  pub quality_run_id : Uuid
  pub execution : Execution
  pub dataset_name : String
  pub layer : String
  pub started_at_utc : ℕ
  pub completed_at_utc : ℕ
  pub summary : QualitySummary
  pub is_blocked : Bool

-- A row of monitoring.quality_results.
pub record ResultRow : Type 0 where
  pub quality_result_id : Uuid
  pub quality_run_id : Uuid
  pub check_name : String
  pub metric_name : String
  pub status : Status
  pub severity : Severity
  pub observed_value : Json
  pub expected_value : Json
  pub checked_at_utc : ℕ
  pub details : Json

pub record QualityTables : Type 0 where
  pub alerts : Store
  pub runs : List RunRow
  pub results : List ResultRow

-- Why the transaction is rolled back; the source raises one `PersistenceError` for both.
pub data PersistenceError : Type 0 where
  duplicate_result : PersistenceError
  alert_failed : AlertError → PersistenceError

abbrev pub has_run : Uuid → RunRow → Bool
has_run i r = r.quality_run_id == i

abbrev pub is_row_of : Uuid → ResultRow → Bool
is_row_of i r = r.quality_run_id == i

-- `ON CONFLICT (quality_run_id) DO UPDATE SET …`
unfoldable pub rewritten : RunRow → RunRow → RunRow
rewritten new old = record old {
  started_at_utc = new.started_at_utc;
  completed_at_utc = new.completed_at_utc;
  execution = record old.execution { logical_date_utc = new.execution.logical_date_utc };
  summary = new.summary;
  is_blocked = new.is_blocked;
}

unfoldable pub upsert_run : RunRow → List RunRow → List RunRow
unfolding rewritten
upsert_run new rows =
    if any (has_run new.quality_run_id) rows
    then update (has_run new.quality_run_id) (rewritten new) rows
    else new ∷ rows

-- The primary key, and UNIQUE (quality_run_id, check_name).
abbrev pub conflicts : ResultRow → ResultRow → Bool
conflicts a b =
    a.quality_result_id == b.quality_result_id
    || a.quality_run_id == b.quality_run_id && str_eq a.check_name b.check_name

-- `executemany`: the rows one after the other.
unfoldable pub insert_results :
    List ResultRow → List ResultRow → Outcome PersistenceError (List ResultRow)
insert_results [] there = ok there
insert_results (r ∷ rs) there =
    if any (conflicts r) there then err duplicate_result else insert_results rs (r ∷ there)

-- `except Exception`
abbrev pub alerting : {A : Type 0} → Outcome AlertError A → Outcome PersistenceError A
alerting (ok a) = ok a
alerting (err e) = err (alert_failed e)

-- `result.details.message or f"…"`
abbrev message_or : String → String → String
message_or message default = if is_empty message then default else message

module _ {V : Type 0} (encode : V → Json) (encode_details : CheckDetails V → Json)
    (uuid5 : List Json → Uuid) (check_id : Uuid → String → Uuid) (digest : List Json → String)
    (c : Execution) where
  unfoldable pub run_id : DatasetQualityRun V → Uuid
  unfolding run_key
  run_id run = uuid5 (run_key c run.dataset_name run.layer)

  unfoldable pub result_row : Uuid → QualityResult V → ResultRow
  result_row id r = record {
    quality_result_id = check_id id r.check_name;
    quality_run_id = id;
    check_name = r.check_name;
    metric_name = r.metric_name;
    status = r.status;
    severity = r.severity;
    observed_value = encode r.observed_value;
    expected_value = encode r.expected_value;
    checked_at_utc = r.checked_at_utc;
    details = encode_details r.details;
  }

  unfoldable pub run_row : DatasetQualityRun V → RunRow
  unfolding run_id summarize
  run_row run =
      let summary = summarize run.results in
      record {
        quality_run_id = run_id run;
        execution = c;
        dataset_name = run.dataset_name;
        layer = run.layer;
        started_at_utc = run.started_at_utc;
        completed_at_utc = run.completed_at_utc;
        summary = summary;
        is_blocked = ltb 0 summary.critical_failures;
      }

  unfoldable pub occurrence : DatasetQualityRun V → QualityResult V → Uuid
  unfolding logical_key
  occurrence run r =
      uuid5
        (logical_key "pulse-quality-alert-v1" c (run.dataset_name ∷ run.layer ∷ r.check_name ∷ []))

  -- The arguments of the call of `record_alert`.
  unfoldable pub failure_report : DatasetQualityRun V → QualityResult V → Observation
  unfolding occurrence run_id
  failure_report run r = record {
    occurrence_id = occurrence run r;
    condition = record {
      source_type = quality_failure;
      dataset_name = run.dataset_name;
      layer = run.layer;
      metric_name = r.metric_name;
      check_name = some r.check_name;
      dimensions = none;
    };
    source_id = check_id (run_id run) r.check_name;
    severity = critical;
    title = "Critical quality failure: " <> r.check_name;
    message = message_or r.details.message (r.metric_name <> " failed its quality contract");
    seen_at = aware r.checked_at_utc;
    context = c;
    details = some (
        ("observed_value", encode r.observed_value)
        ∷ ("expected_value", encode r.expected_value)
        ∷ []);
  }

  module _ (fresh now : ℕ → ℕ) where
    -- One turn of the loop; `n` counts the calls of `record_alert`.
    unfoldable pub record_failure :
        DatasetQualityRun V → ℕ → QualityResult V → Store → Outcome AlertError (ℕ × Store)
    record_failure run n r s =
        if is_critical_failure r
        then (do
          (identity, t) ← record_alert digest (fresh n) (now n) (failure_report run r) s
          ok (suc n, t))
        else ok (n, s)

    -- The loop over the sorted results.
    unfoldable pub record_each :
        DatasetQualityRun V → ℕ → List (QualityResult V) → Store → Outcome AlertError Store
    record_each run n [] s = ok s
    record_each run n (r ∷ rs) s = do (k, t) ← record_failure run n r s; record_each run k rs t

    unfoldable pub persist_quality_run :
        DatasetQualityRun V → QualityTables → Outcome PersistenceError (Uuid × QualityTables)
    persist_quality_run run m = do
      let id = run_id run
      let others = select (λ r. not (is_row_of id r)) m.results
      let sorted = sort_by (not_after (by (λ r. r.check_name) text_less)) run.results
      results ← insert_results (map (result_row id) run.results) others
      alerts ← alerting (record_each run 0 sorted m.alerts)
      ok (id, record { alerts = alerts; runs = upsert_run (run_row run) m.runs; results = results })
