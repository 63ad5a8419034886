-- ===== src/Quality/Examples.antt =====
-- Witnesses for the theorems about stored quality runs: one check that failed, one that passed.
use pulse_data_platform.Base.{
  ℕ, ◌+◌, ◌≤◌, ◌<◌, ◌≡◌, ◌≢◌, refl, String, Bool, true, List, [], ◌∷◌, some, map, All, arith, count,
  find, str_eq, ltb, ok, err, is_blank, if◌then◌else◌,
}
use pulse_data_platform.Base.Sorting.{sort_by}
use pulse_data_platform.Base.Strict.{text_less}
use pulse_data_platform.Alerts.Rows.{Uuid, Json, number, text, aware, critical, has_occurrence_id}
use pulse_data_platform.Alerts.Identity.{payload}
use pulse_data_platform.Alerts.Recording.{record_alert, open_incident}
use pulse_data_platform.Alerts.Invariant.{IsValid}
use pulse_data_platform.Alerts.Examples.{digest, empty, empty-IsValid, run}
use pulse_data_platform.Quality.Results.{
  Status, pass, fail, CheckDetails, QualityResult, is_critical_failure, summarize, should_block,
}
use pulse_data_platform.Quality.Runs.{
  DatasetQualityRun, dataset_quality_run, duplicate_checks, completed_early,
}
use pulse_data_platform.Quality.Persisting.{
  RunRow, ResultRow, QualityTables, has_run, run_id, result_row, run_row, occurrence,
  failure_report, record_failure, record_each, upsert_run, insert_results, persist_quality_run,
}
use pulse_data_platform.Quality.Summaries.{stored_status, summarize_constraints}
use pulse_data_platform.Quality.Persisted.{
  persist_quality_run_stored, persist_quality_run_receipts, persist_quality_run-IsValid,
}

abbrev check : String → Status → QualityResult ℕ
check name status = record {
  check_name = name;
  dataset_name = "orders";
  layer = "silver";
  status = status;
  severity = critical;
  metric_name = "null_ratio";
  observed_value = 3;
  expected_value = 0;
  checked_at_utc = 100;
  details = record { message = ""; measures = 3 };
}

abbrev results : List (QualityResult ℕ)
results = check "nulls" fail ∷ check "keys" pass ∷ []

abbrev orders_run : DatasetQualityRun ℕ
orders_run = record {
  dataset_name = "orders";
  layer = "silver";
  started_at_utc = 90;
  completed_at_utc = 110;
  results = results;
}

-- Identities of runs and occurrences, and of results.
abbrev uuid5 : List Json → Uuid
uuid5 (text key ∷ _) = if str_eq key "pulse-quality-v1" then 60 else 9
uuid5 _ = 0

abbrev check_id : Uuid → String → Uuid
check_id id name = if str_eq name "nulls" then 70 else 71

abbrev details_of : CheckDetails ℕ → Json
details_of d = number d.measures

abbrev fresh : ℕ → Uuid
fresh n = n + 1

abbrev now : ℕ → ℕ
now n = 5

abbrev before : QualityTables
before = record { alerts = empty; runs = []; results = [] }

abbrev after : QualityTables
after = record {
  alerts =
      open_incident 1 5
        (failure_report number details_of uuid5 check_id digest run orders_run (check "nulls" fail))
        "orders" 100 empty;
  runs = run_row number details_of uuid5 check_id digest run orders_run ∷ [];
  results =
      result_row number details_of uuid5 check_id digest run 60 (check "keys" pass)
      ∷ result_row number details_of uuid5 check_id digest run 60 (check "nulls" fail)
      ∷ [];
}

early_test : dataset_quality_run "orders" "silver" (aware 9) (aware 8) results ≡ err completed_early
unfolding dataset_quality_run is_blank
early_test = refl

duplicate_test :
    dataset_quality_run "orders" "silver"
      (aware 8)
      (aware 9)
      (check "nulls" fail ∷ check "nulls" pass ∷ [])
    ≡ err duplicate_checks
unfolding dataset_quality_run is_blank
duplicate_test = refl

persist_test :
    persist_quality_run number details_of uuid5 check_id digest run fresh now orders_run before
    ≡ ok (60, after)
unfolding persist_quality_run insert_results result_row run_id record_each sort_by text_less
    record_failure record_alert failure_report is_blank payload upsert_run
persist_test = refl

summarize_constraints_example :
    let s = summarize results in
    (s.total_checks ≡ s.passed + (s.warnings + s.failed))
    × (s.critical_failures ≤ s.failed)
    × (s.overall_status ≡ stored_status s)
    × (should_block results ≡ ltb 0 s.critical_failures)
summarize_constraints_example = summarize_constraints results

persist_quality_run_stored_example :
    (60 ≡ run_id number details_of uuid5 check_id digest run orders_run)
    × ((p : ResultRow → Bool)
        → count p after.results
          ≡ count p (
              map
                (result_row number details_of uuid5 check_id digest run
                  (run_id number details_of uuid5 check_id digest run orders_run))
                results)
            + count p [])
    × ((row : RunRow) × (find
            (has_run (run_id number details_of uuid5 check_id digest run orders_run))
            after.runs
          ≡ some row)
        × (row.summary ≡ summarize results)
        × (row.is_blocked ≡ should_block results))
    × ((j : Uuid)
        → run_id number details_of uuid5 check_id digest run orders_run ≢ j
        → find (has_run j) after.runs ≡ find (has_run j) [])
persist_quality_run_stored_example =
    persist_quality_run_stored number details_of uuid5 check_id digest run fresh now orders_run
      before 60 after persist_test

persist_quality_run_receipts_example :
    All
      (λ r.
        is_critical_failure r ≡ true
        → 0
          < count
              (has_occurrence_id
                (occurrence number details_of uuid5 check_id digest run orders_run r))
              after.alerts.occurrences)
      results
persist_quality_run_receipts_example =
    persist_quality_run_receipts number details_of uuid5 check_id digest run fresh now orders_run
      before 60 after persist_test

persist_quality_run-IsValid_example : IsValid after.alerts
persist_quality_run-IsValid_example =
    persist_quality_run-IsValid number details_of uuid5 check_id digest run fresh now orders_run
      before 60 after (λ j k same. omega (arith, same)) (λ j le. refl) empty-IsValid persist_test
