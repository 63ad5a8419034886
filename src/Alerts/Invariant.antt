-- ===== src/Alerts/Invariant.antt =====
-- The well-formedness of the alert tables: what src/quality/monitoring.sql states of them, and how
-- the counters, the receipts and the audit trail of src/quality/alert_service.py agree.
use pulse_data_platform.Base.{
  ◌≤◌, ◌≡◌, String, Option, none, some, List, [], ◌∷◌, count, find, All, ◌==◌,
}
use pulse_data_platform.Alerts.Rows.{
  Uuid, AlertStatus, open_status, AlertEvent, Occurrence, Audit, Store, has_id, is_active_for,
  has_occurrence_id, is_receipt_of,
}
use pulse_data_platform.Alerts.Lifecycle.{◌⟶◌}

abbrev pub status_of : Option Audit → Option AlertStatus
status_of none = none
status_of (some a) = some a.new_status

-- The status that the newest audit row of an alert records.
abbrev pub newest_status : Uuid → List Audit → Option AlertStatus
newest_status i h = status_of (find (λ a. a.alert_event_id == i) h)

-- An audit row is the opening of an alert or an edge of the lifecycle.
abbrev pub IsEdge : Option AlertStatus → AlertStatus → Type 0
IsEdge none t = t ≡ open_status
IsEdge (some p) t = p ⟶ t

-- Each audit row starts where the alert's previous row ended.
abbrev pub IsTrail : List Audit → Type 0
IsTrail [] = Unit
IsTrail (a ∷ h) =
    (a.previous_status ≡ newest_status a.alert_event_id h)
    × IsEdge a.previous_status a.new_status
    × IsTrail h

-- The counter of an alert is the number of its receipts.
abbrev pub IsCounted : List Occurrence → AlertEvent → Type 0
IsCounted os e = e.occurrence_count ≡ count (is_receipt_of e.alert_event_id) os

abbrev pub IsAudited : List Audit → AlertEvent → Type 0
IsAudited h e = newest_status e.alert_event_id h ≡ some e.status

abbrev pub IsOrdered : AlertEvent → Type 0
IsOrdered e = e.first_seen_at_utc ≤ e.last_seen_at_utc

pub record IsValid (s : Store) : Type 0 where
  -- alert_events_active_incident_idx
  pub one_active : (k : String) → count (is_active_for k) s.events ≤ 1
  -- the primary keys
  pub one_event : (i : Uuid) → count (has_id i) s.events ≤ 1
  pub one_receipt : (i : Uuid) → count (has_occurrence_id i) s.occurrences ≤ 1
  -- the foreign keys
  pub receipts_linked :
      (i : Uuid) → count (has_id i) s.events ≡ 0 → count (is_receipt_of i) s.occurrences ≡ 0
  pub history_linked : (i : Uuid) → count (has_id i) s.events ≡ 0 → newest_status i s.history ≡ none
  pub counted : All (IsCounted s.occurrences) s.events
  pub audited : All (IsAudited s.history) s.events
  pub ordered : All IsOrdered s.events
  pub trail : IsTrail s.history
