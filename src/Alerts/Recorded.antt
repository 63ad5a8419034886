-- ===== src/Alerts/Recorded.antt =====
-- `record_alert` of src/quality/alert_service.py as a relation: the four ways in which a call can
-- return, each with the tests that led to it.
use pulse_data_platform.Base.{
  ℕ, ◌≡◌, String, true, false, none, some, List, arith, inl, inr, Bool-cases, Option-cases, find,
  update, eq_iff, ok, >>=-eq-ok,
}
use pulse_data_platform.Alerts.Rows.{
  Uuid, Json, AlertEvent, Occurrence, Store, is_resolved, has_id, is_active_for, has_occurrence_id,
}
use pulse_data_platform.Alerts.Identity.{incident_key}
use pulse_data_platform.Alerts.Recording.{
  Observation, accepted_stamp, refreshed, open_incident, report_again, record_keyed, record_alert,
}

pub data Recorded (fresh : Uuid) (now : ℕ) (o : Observation) (key : String) (seen : ℕ) (s : Store)
    (i : Uuid) (t : Store) : Type 0 where
  opens :
      find (has_occurrence_id o.occurrence_id) s.occurrences ≡ none
      → find (is_active_for key) s.events ≡ none
      → i ≡ fresh
      → t ≡ open_incident fresh now o key seen s
      → Recorded fresh now o key seen s i t
  joins :
      (e : AlertEvent)
      → find (has_occurrence_id o.occurrence_id) s.occurrences ≡ none
      → find (is_active_for key) s.events ≡ some e
      → i ≡ e.alert_event_id
      → t ≡ report_again e.alert_event_id o key seen s
      → Recorded fresh now o key seen s i t
  ignores :
      (r : Occurrence) (e : AlertEvent)
      → find (has_occurrence_id o.occurrence_id) s.occurrences ≡ some r
      → r.incident_key ≡ key
      → find (has_id r.alert_event_id) s.events ≡ some e
      → is_resolved e.status ≡ true
      → i ≡ r.alert_event_id
      → t ≡ s
      → Recorded fresh now o key seen s i t
  refreshes :
      (r : Occurrence) (e : AlertEvent)
      → find (has_occurrence_id o.occurrence_id) s.occurrences ≡ some r
      → r.incident_key ≡ key
      → find (has_id r.alert_event_id) s.events ≡ some e
      → is_resolved e.status ≡ false
      → i ≡ r.alert_event_id
      → t ≡ record s { events = update (has_id r.alert_event_id) (refreshed o seen 0) s.events }
      → Recorded fresh now o key seen s i t

module _ (fresh : Uuid) (now : ℕ) (o : Observation) (key : String) (seen : ℕ) (s : Store) where
  record_keyed-Recorded :
      (i : Uuid) (t : Store)
      → record_keyed (find (has_occurrence_id o.occurrence_id) s.occurrences) fresh now o key seen s
        ≡ ok (i, t)
      → Recorded fresh now o key seen s i t
  unfolding record_keyed
  record_keyed-Recorded i t h =
      elim (Option-cases (find (has_occurrence_id o.occurrence_id) s.occurrences)) [
        | inl new ↦ elim (Option-cases (find (is_active_for key) s.events)) [
          | inl absent ↦ opens new absent (ground arith) (ground arith)
          | inr (e, present) ↦ joins e new present (ground arith) (ground arith)
        ]
        | inr (r, old) ↦ elim (Option-cases (find (has_id r.alert_event_id) s.events)) [
          | inl missing ↦ absurd (ground arith)
          | inr (e, present) ↦ elim (Bool-cases (is_resolved e.status)) [
            | inl done ↦
                ignores r e old (ground (arith, eq_iff r.incident_key key)) present done
                  (ground arith) (ground arith)
            | inr live ↦
                refreshes r e old (ground (arith, eq_iff r.incident_key key)) present live
                  (ground arith) (ground arith)
          ]
        ]
      ]

-- Every call that returns has run one of the four ways, under the key of its condition and at the
-- instant of its observation.
pub record_alert-Recorded :
    (digest : List Json → String) (fresh : Uuid) (now : ℕ) (o : Observation) (s : Store) (i : Uuid)
    (t : Store)
    → record_alert digest fresh now o s ≡ ok (i, t)
    → (key : String) × (seen : ℕ) × (incident_key digest o.condition ≡ ok key)
      × (accepted_stamp o.severity o.seen_at ≡ ok seen)
      × Recorded fresh now o key seen s i t
unfolding record_alert
record_alert-Recorded digest fresh now o s i t h =
    let (key, keyed, h') = >>=-eq-ok (incident_key digest o.condition) _ h in
    let (seen, stamped, h'') = >>=-eq-ok (accepted_stamp o.severity o.seen_at) _ h' in
    (key, seen, keyed, stamped, record_keyed-Recorded fresh now o key seen s i t h'')
