-- ===== src/Alerts/Recording.antt =====
-- `record_alert` of src/quality/alert_service.py. The advisory lock makes the calls for one
-- incident key exclude each other, so a call is one step on the tables. `fresh` is what `uuid4`
-- returns and `now` what `clock_timestamp()` reads.
use pulse_data_platform.Base.{
  ℕ, ◌+◌, min, max, String, Bool, true, false, Option, none, some, List, [], ◌∷◌, Outcome, ok, err,
  ◌>>=◌, find, update, str_eq, leb, or_default, if◌then◌else◌,
}
use pulse_data_platform.Alerts.Rows.{
  Uuid, Stamp, aware, naive, Severity, info, warning, critical, AlertStatus, open_status, Json,
  text, dict, Execution, AlertEvent, Occurrence, Audit, Store, is_resolved, has_id, is_active_for,
  has_occurrence_id,
}
use pulse_data_platform.Alerts.Identity.{
  AlertError, Condition, incident_key, bad_severity_or_stamp, wrong_incident, missing_row,
}

-- The keyword arguments of `record_alert`.
pub record Observation : Type 0 where
  pub occurrence_id : Uuid
  pub condition : Condition
  pub source_id : Uuid
  pub severity : Severity
  pub title : String
  pub message : String
  pub seen_at : Stamp
  pub context : Execution
  pub details : Option (List (String × Json))

-- `d[k] = v`
unfoldable pub put : String → Json → List (String × Json) → List (String × Json)
put k v [] = (k, v) ∷ []
put k v ((j, w) ∷ d) = if str_eq j k then (j, v) ∷ d else (j, w) ∷ put k v d

abbrev put_check : Option String → List (String × Json) → List (String × Json)
put_check none d = d
put_check (some c) d = put "check_name" (text c) d

unfoldable pub evidence : Observation → List (String × Json)
evidence o = put_check o.condition.check_name (
    put "dimensions" (dict (or_default o.condition.dimensions []))
      (put "metric_name" (text o.condition.metric_name) (or_default o.details [])))

abbrev is_alerting : Severity → Bool
is_alerting info = false
is_alerting _ = true

abbrev pub is_critical : Severity → Bool
is_critical critical = true
is_critical _ = false

abbrev utc : Stamp → Option ℕ
utc (aware t) = some t
utc (naive t) = none

-- The instant of an acceptable observation.
unfoldable pub accepted_stamp : Severity → Stamp → Outcome AlertError ℕ
accepted_stamp s (naive t) = err bad_severity_or_stamp
accepted_stamp s (aware t) = if is_alerting s then ok t else err bad_severity_or_stamp

-- The row of a new alert.
unfoldable pub opened : Uuid → Observation → String → ℕ → AlertEvent
opened identity o key seen = record {
  alert_event_id = identity;
  source_type = o.condition.source_type;
  source_id = o.source_id;
  dataset_name = o.condition.dataset_name;
  layer = o.condition.layer;
  severity = o.severity;
  status = open_status;
  title = o.title;
  message = o.message;
  created_at_utc = seen;
  execution = o.context;
  details = evidence o;
  incident_key = key;
  first_seen_at_utc = seen;
  last_seen_at_utc = seen;
  occurrence_count = 1;
  acknowledged_at_utc = none;
  acknowledged_by = none;
  resolved_at_utc = none;
  resolved_by = none;
  resolution_note = none;
}

-- `CASE WHEN severity='CRITICAL' OR %s='CRITICAL' THEN 'CRITICAL' ELSE 'WARNING' END`
unfoldable pub worse : Severity → Severity → Severity
worse critical new = critical
worse _ new = if is_critical new then critical else warning

-- The UPDATE: evidence follows the observation time, `added` is 0 on a replay and 1 otherwise.
unfoldable pub refreshed : Observation → ℕ → ℕ → AlertEvent → AlertEvent
unfolding worse
refreshed o seen added e =
    let latest = leb e.last_seen_at_utc seen in
    record e {
      source_id = if latest then o.source_id else e.source_id;
      title = if latest then o.title else e.title;
      message = if latest then o.message else e.message;
      details = if latest then evidence o else e.details;
      execution = if latest then o.context else e.execution;
      severity = worse e.severity o.severity;
      first_seen_at_utc = min e.first_seen_at_utc seen;
      last_seen_at_utc = max e.last_seen_at_utc seen;
      occurrence_count = e.occurrence_count + added;
    }

-- The row of monitoring.alert_occurrences.
unfoldable pub receipt : Uuid → Observation → String → ℕ → Occurrence
receipt identity o key seen = record {
  occurrence_id = o.occurrence_id;
  alert_event_id = identity;
  incident_key = key;
  observed_at_utc = seen;
  source_id = o.source_id;
  details = evidence o;
  execution_id = o.context.execution_id;
  execution_source = o.context.execution_source;
  severity = o.severity;
}

-- `_audit`; a history row is stamped by the database clock.
unfoldable pub audit : Uuid → Option AlertStatus → AlertStatus → String → Option String → ℕ → Audit
audit identity previous target actor note now = record {
  alert_event_id = identity;
  previous_status = previous;
  new_status = target;
  changed_at_utc = now;
  changed_by = actor;
  note = note;
}

-- The incident has no active alert: open one.
unfoldable pub open_incident : Uuid → ℕ → Observation → String → ℕ → Store → Store
open_incident fresh now o key seen s = record s {
  events = opened fresh o key seen ∷ s.events;
  occurrences = receipt fresh o key seen ∷ s.occurrences;
  history =
      audit fresh none open_status "system:alert-service" (some "Condition detected") now
      ∷ s.history;
}

-- A first report about an active alert.
unfoldable pub report_again : Uuid → Observation → String → ℕ → Store → Store
report_again identity o key seen s = record s {
  events = update (has_id identity) (refreshed o seen 1) s.events;
  occurrences = receipt identity o key seen ∷ s.occurrences;
}

unfoldable pub first_report :
    Option AlertEvent → Uuid → ℕ → Observation → String → ℕ → Store → Uuid × Store
unfolding open_incident report_again
first_report none fresh now o key seen s = (fresh, open_incident fresh now o key seen s)
first_report (some active) fresh now o key seen s =
    (active.alert_event_id, report_again active.alert_event_id o key seen s)

-- The receipt is there: a resolved alert stays as it is, another takes the latest evidence.
unfoldable pub replay :
    Option AlertEvent → Uuid → Observation → ℕ → Store → Outcome AlertError (Uuid × Store)
replay none identity o seen s = err missing_row
replay (some e) identity o seen s =
    if is_resolved e.status
    then ok (identity, s)
    else ok (identity, record s { events = update (has_id identity) (refreshed o seen 0) s.events })

unfoldable pub record_keyed :
    Option Occurrence
    → Uuid
    → ℕ
    → Observation
    → String
    → ℕ
    → Store
    → Outcome AlertError (Uuid × Store)
unfolding first_report replay
record_keyed none fresh now o key seen s =
    ok (first_report (find (is_active_for key) s.events) fresh now o key seen s)
record_keyed (some r) fresh now o key seen s =
    if str_eq r.incident_key key
    then replay (find (has_id r.alert_event_id) s.events) r.alert_event_id o seen s
    else err wrong_incident

module _ (digest : List Json → String) where
  unfoldable pub record_alert : Uuid → ℕ → Observation → Store → Outcome AlertError (Uuid × Store)
  unfolding record_keyed incident_key accepted_stamp
  record_alert fresh now o s = do
    key ← incident_key digest o.condition
    seen ← accepted_stamp o.severity o.seen_at
    record_keyed (find (has_occurrence_id o.occurrence_id) s.occurrences) fresh now o key seen s
