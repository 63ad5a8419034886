-- ===== src/Quality/Alerting.antt =====
-- What a call of `record_alert` of src/quality/alert_service.py leaves for the calls after it in
-- the transaction of `persist_quality_run`.
use pulse_data_platform.Base.{
  ℕ, ◌≤◌, ◌<◌, ◌≡◌, ◌≢◌, refl, String, List, arith, count, update, count-update, count-pos_of_find,
  find_sound, ok,
}
use pulse_data_platform.Alerts.Rows.{Uuid, Json, Store, has_id, has_occurrence_id}
use pulse_data_platform.Alerts.Recording.{
  Observation, record_alert, open_incident, opened, receipt, report_again, refreshed,
}
use pulse_data_platform.Alerts.Recorded.{
  Recorded, opens, joins, ignores, refreshes, record_alert-Recorded,
}

module _ (o : Observation) (key : String) (seen : ℕ) (s : Store) where
  same_ids :
      (i j : Uuid) (added : ℕ)
      → count (has_id j) (update (has_id i) (refreshed o seen added) s.events)
        ≡ count (has_id j) s.events
  same_ids i j added =
      count-update (has_id j) (has_id i) (refreshed o seen added) (λ e h. unfold refreshed in refl)
        s.events

  Recorded-unused :
      (fresh : Uuid) (now : ℕ) (i : Uuid) (t : Store) (j : Uuid)
      → fresh ≢ j
      → Recorded fresh now o key seen s i t
      → count (has_id j) s.events ≡ 0
      → count (has_id j) t.events ≡ 0
  Recorded-unused fresh now i t j other (opens new absent _ made) h =
      rw made (unfold open_incident opened in ground (arith, other))
  Recorded-unused fresh now i t j other (joins e new found _ made) h =
      rw made (unfold report_again in rw (same_ids e.alert_event_id j 1) h)
  Recorded-unused fresh now i t j other (ignores r e old same found done _ made) h = rw made h
  Recorded-unused fresh now i t j other (refreshes r e old same found live _ made) h =
      rw made (rw (same_ids r.alert_event_id j 0) h)

  Recorded-receipts :
      (fresh : Uuid) (now : ℕ) (i : Uuid) (t : Store) (j : Uuid)
      → Recorded fresh now o key seen s i t
      → count (has_occurrence_id j) s.occurrences ≤ count (has_occurrence_id j) t.occurrences
  Recorded-receipts fresh now i t j (opens new absent _ made) =
      rw made (unfold open_incident receipt in ground arith)
  Recorded-receipts fresh now i t j (joins e new found _ made) =
      rw made (unfold report_again receipt in ground arith)
  Recorded-receipts fresh now i t j (ignores r e old same found done _ made) = rw made (omega arith)
  Recorded-receipts fresh now i t j (refreshes r e old same found live _ made) =
      rw made (omega arith)

  Recorded-receipt :
      (fresh : Uuid) (now : ℕ) (i : Uuid) (t : Store)
      → Recorded fresh now o key seen s i t
      → 0 < count (has_occurrence_id o.occurrence_id) t.occurrences
  Recorded-receipt fresh now i t (opens new absent _ made) =
      rw made (unfold open_incident receipt in ground arith)
  Recorded-receipt fresh now i t (joins e new found _ made) =
      rw made (unfold report_again receipt in ground arith)
  Recorded-receipt fresh now i t (ignores r e old same found done _ made) = rw made (
      count-pos_of_find (has_occurrence_id o.occurrence_id) (has_occurrence_id o.occurrence_id)
        s.occurrences r old (find_sound (has_occurrence_id o.occurrence_id) s.occurrences r old))
  Recorded-receipt fresh now i t (refreshes r e old same found live _ made) = rw made (
      count-pos_of_find (has_occurrence_id o.occurrence_id) (has_occurrence_id o.occurrence_id)
        s.occurrences r old (find_sound (has_occurrence_id o.occurrence_id) s.occurrences r old))

module _ (digest : List Json → String) (fresh : Uuid) (now : ℕ) (o : Observation) (s : Store)
    (i : Uuid) (t : Store) (done : record_alert digest fresh now o s ≡ ok (i, t)) where
  -- An identity that no alert has, other than the one of this call, stays without alert.
  pub record_alert_unused :
      (j : Uuid) → fresh ≢ j → count (has_id j) s.events ≡ 0 → count (has_id j) t.events ≡ 0
  record_alert_unused j other =
      let (key, seen, _, _, way) = record_alert-Recorded digest fresh now o s i t done in
      Recorded-unused o key seen s fresh now i t j other way

  pub record_alert_receipts :
      (j : Uuid)
      → count (has_occurrence_id j) s.occurrences ≤ count (has_occurrence_id j) t.occurrences
  record_alert_receipts j =
      let (key, seen, _, _, way) = record_alert-Recorded digest fresh now o s i t done in
      Recorded-receipts o key seen s fresh now i t j way

  -- The occurrence has its receipt.
  pub record_alert_receipt : 0 < count (has_occurrence_id o.occurrence_id) t.occurrences
  record_alert_receipt =
      let (key, seen, _, _, way) = record_alert-Recorded digest fresh now o s i t done in
      Recorded-receipt o key seen s fresh now i t way
