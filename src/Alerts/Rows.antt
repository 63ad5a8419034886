-- ===== src/Alerts/Rows.antt =====
-- The rows of monitoring.alert_events, alert_occurrences and alert_event_history
-- (src/quality/monitoring.sql) that src/quality/alert_service.py reads and writes, and the
-- arguments of its calls. A UUID and an instant (in UTC) are natural numbers; a table is the list
-- of its rows, the newest first.
use pulse_data_platform.Base.{ℕ, ℤ, String, Bool, true, false, Option, List, ◌&&◌, str_eq, ◌==◌}

abbrev pub Uuid : Type 0
Uuid = ℕ

-- `datetime`: with or without a UTC offset.
pub data Stamp : Type 0 where
  aware : ℕ → Stamp
  naive : ℕ → Stamp

-- Any text may be passed as a source type; two are known.
pub data SourceType : Type 0 where
  quality_failure anomaly : SourceType
  other_source : String → SourceType

-- STATES, and any other text that a caller may name.
pub data AlertStatus : Type 0 where
  open_status acknowledged resolved : AlertStatus
  other_status : String → AlertStatus

pub data Severity : Type 0 where
  info warning critical : Severity

-- A value of a JSON object of the evidence.
pub data Json : Type 0 where
  null : Json
  text : String → Json
  dict : List (String × String) → Json
  number : ℕ → Json
  integer : ℤ → Json
  uuid_text : ℕ → Json

-- `ExecutionContext` of src/quality/execution.py.
pub record Execution : Type 0 where
  pub execution_source : String
  pub execution_id : String
  pub dag_id : Option String
  pub airflow_run_id : Option String
  pub task_id : Option String
  pub attempt_number : ℕ
  pub map_index : ℤ
  pub logical_date_utc : Option ℕ

-- A row of monitoring.alert_events.
pub record AlertEvent : Type 0 where
  pub alert_event_id : Uuid
  pub source_type : SourceType
  pub source_id : Uuid
  pub dataset_name : String
  pub layer : String
  pub severity : Severity
  pub status : AlertStatus
  pub title : String
  pub message : String
  pub created_at_utc : ℕ
  pub execution : Execution
  pub details : List (String × Json)
  pub incident_key : String
  pub first_seen_at_utc : ℕ
  pub last_seen_at_utc : ℕ
  pub occurrence_count : ℕ
  pub acknowledged_at_utc : Option ℕ
  pub acknowledged_by : Option String
  pub resolved_at_utc : Option ℕ
  pub resolved_by : Option String
  pub resolution_note : Option String

-- A row of monitoring.alert_occurrences; the last four are the members of `snapshot`.
pub record Occurrence : Type 0 where
  pub occurrence_id : Uuid
  pub alert_event_id : Uuid
  pub incident_key : String
  pub observed_at_utc : ℕ
  pub source_id : Uuid
  pub details : List (String × Json)
  pub execution_id : String
  pub execution_source : String
  pub severity : Severity

-- A row of monitoring.alert_event_history.
pub record Audit : Type 0 where
  pub alert_event_id : Uuid
  pub previous_status : Option AlertStatus
  pub new_status : AlertStatus
  pub changed_at_utc : ℕ
  pub changed_by : String
  pub note : Option String

pub record Store : Type 0 where
  pub events : List AlertEvent
  pub occurrences : List Occurrence
  pub history : List Audit

-- `status IN ('OPEN','ACKNOWLEDGED')`
unfoldable pub is_active : AlertStatus → Bool
is_active open_status = true
is_active acknowledged = true
is_active _ = false

unfoldable pub is_resolved : AlertStatus → Bool
is_resolved resolved = true
is_resolved _ = false

-- `WHERE alert_event_id=%s`
abbrev pub has_id : Uuid → AlertEvent → Bool
has_id i e = e.alert_event_id == i

-- `WHERE incident_key=%s AND status IN ('OPEN','ACKNOWLEDGED')`
abbrev pub is_active_for : String → AlertEvent → Bool
is_active_for k e = str_eq e.incident_key k && is_active e.status

abbrev pub has_occurrence_id : Uuid → Occurrence → Bool
has_occurrence_id i o = o.occurrence_id == i

-- The receipts of one alert.
abbrev pub is_receipt_of : Uuid → Occurrence → Bool
is_receipt_of i o = o.alert_event_id == i
