-- ===== src/Quality/Persisted.antt =====
-- What `persist_quality_run` of src/quality/persistence.py stores.
use pulse_data_platform.Base.{
  ℕ, ◌+◌, ◌<◌, ◌≡◌, ◌≢◌, refl, ◌∙◌, String, Bool, true, not, List, some, map, arith, All, count,
  select, find, ok, err, >>=-eq-ok, Outcome,
}
use pulse_data_platform.Base.Sorting.{sort_by, All-sort_by_back}
use pulse_data_platform.Base.Strict.{by, not_after, text_less}
use pulse_data_platform.Alerts.Rows.{Uuid, Json, Execution, has_occurrence_id}
use pulse_data_platform.Alerts.Identity.{AlertError}
use pulse_data_platform.Alerts.Invariant.{IsValid}
use pulse_data_platform.Quality.Results.{
  CheckDetails, QualityResult, is_critical_failure, summarize, should_block,
}
use pulse_data_platform.Quality.Runs.{DatasetQualityRun}
use pulse_data_platform.Quality.Persisting.{
  RunRow, ResultRow, QualityTables, PersistenceError, has_run, is_row_of, upsert_run,
  insert_results, run_id, result_row, run_row, occurrence, persist_quality_run, alerting,
}
use pulse_data_platform.Quality.Upserts.{count-insert_results, upsert_same, upsert_others}
use pulse_data_platform.Quality.Turns.{IsUnused, loop, loop_receipt, loop-IsValid}

alerting_ok : {A : Type 0} (x : Outcome AlertError A) (a : A) → alerting x ≡ ok a → x ≡ ok a
alerting_ok (ok b) a h = ground arith
alerting_ok (err e) a h = absurd (cc)

module _ {V : Type 0} (encode : V → Json) (encode_details : CheckDetails V → Json)
    (uuid5 : List Json → Uuid) (check_id : Uuid → String → Uuid) (digest : List Json → String)
    (c : Execution) (fresh now : ℕ → ℕ) (run : DatasetQualityRun V) (m : QualityTables) where
  abbrev sorted : List (QualityResult V)
  sorted = sort_by (not_after (by (λ r. r.check_name) text_less)) run.results

  abbrev id : Uuid
  id = run_id encode encode_details uuid5 check_id digest c run

  abbrev row_of : QualityResult V → ResultRow
  row_of = result_row encode encode_details uuid5 check_id digest c id

  abbrev others : List ResultRow
  others = select (λ r. not (is_row_of id r)) m.results

  abbrev persist : Outcome PersistenceError (Uuid × QualityTables)
  persist = persist_quality_run encode encode_details uuid5 check_id digest c fresh now run m

  -- The parts of a transaction that commits.
  parts :
      (i : Uuid) (t : QualityTables)
      → persist ≡ ok (i, t)
      → (i ≡ id)
        × (insert_results (map row_of run.results) others ≡ ok t.results)
        × (loop encode encode_details uuid5 check_id digest c fresh now run 0 sorted m.alerts
            ≡ ok t.alerts)
        × (t.runs ≡ upsert_run (run_row encode encode_details uuid5 check_id digest c run) m.runs)
  unfolding persist_quality_run
  parts i t h =
      let (rows, inserted, h1) = >>=-eq-ok (insert_results (map row_of run.results) others) _ h in
      let (alerts, recorded, h2) =
        >>=-eq-ok
          (alerting
            (loop encode encode_details uuid5 check_id digest c fresh now run 0 sorted m.alerts))
          _ h1 in
      let recorded_ok =
        alerting_ok
          (loop encode encode_details uuid5 check_id digest c fresh now run 0 sorted m.alerts)
          alerts recorded in
      (ground arith, rw inserted (ground arith), rw recorded_ok (ground arith), ground arith)

  -- A run that is persisted has replaced what was stored under its identity: the results are the
  -- new rows and those of other runs, each as often as it was; the run has its row, with the
  -- summary of the results and the flag that blocks; and the rows of other runs are as before.
  pub persist_quality_run_stored :
      (i : Uuid) (t : QualityTables)
      → persist ≡ ok (i, t)
      → (i ≡ id)
        × ((p : ResultRow → Bool)
            → count p t.results ≡ count p (map row_of run.results) + count p others)
        × ((row : RunRow) × (find (has_run id) t.runs ≡ some row)
            × (row.summary ≡ summarize run.results)
            × (row.is_blocked ≡ should_block run.results))
        × ((j : Uuid) → id ≢ j → find (has_run j) t.runs ≡ find (has_run j) m.runs)
  persist_quality_run_stored i t h =
      let (who, inserted, _, runs) = parts i t h in
      let new = run_row encode encode_details uuid5 check_id digest c run in
      let same_id : new.quality_run_id ≡ id = unfold run_row in refl in
      let (row, found, summary, blocked) = upsert_same new m.runs in
      (
        who,
        count-insert_results (map row_of run.results) others t.results inserted,
        (
          row,
          rw (runs, ← same_id) found,
          summary ∙ unfold run_row in refl,
          blocked ∙ unfold run_row should_block in refl,
        ),
        λ j other. rw runs (upsert_others new j m.runs (rw same_id other)),
      )

  -- A run that is persisted leaves the receipt of every critical failure among its results, under
  -- the occurrence of the execution, dataset, layer and check: no critical failure is stored
  -- without its report.
  pub persist_quality_run_receipts :
      (i : Uuid) (t : QualityTables)
      → persist ≡ ok (i, t)
      → All
          (λ r.
            is_critical_failure r ≡ true
            → 0
              < count
                  (has_occurrence_id
                    (occurrence encode encode_details uuid5 check_id digest c run r))
                  t.alerts.occurrences)
          run.results
  persist_quality_run_receipts i t h =
      let (_, _, recorded, _) = parts i t h in
      All-sort_by_back (not_after (by (λ r. r.check_name) text_less))
        (λ r.
          is_critical_failure r ≡ true
          → 0
            < count
                (has_occurrence_id (occurrence encode encode_details uuid5 check_id digest c run r))
                t.alerts.occurrences)
        run.results
        (loop_receipt encode encode_details uuid5 check_id digest c fresh now run 0 sorted m.alerts
          t.alerts recorded)

  -- A run that is persisted, on well-formed alert tables and with distinct identities from `uuid4`
  -- that no alert has, leaves the alert tables well formed.
  pub persist_quality_run-IsValid :
      (i : Uuid) (t : QualityTables)
      → ((j k : ℕ) → fresh j ≡ fresh k → j ≡ k)
      → IsUnused fresh 0 m.alerts
      → IsValid m.alerts
      → persist ≡ ok (i, t)
      → IsValid t.alerts
  persist_quality_run-IsValid i t distinct unused valid h =
      let (_, _, recorded, _) = parts i t h in
      loop-IsValid encode encode_details uuid5 check_id digest c fresh now run distinct 0 sorted
        m.alerts t.alerts valid unused recorded
