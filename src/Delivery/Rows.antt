-- ===== src/Delivery/Rows.antt =====
-- The rows of monitoring.alert_deliveries (src/quality/monitoring.sql), and the values that
-- src/quality/delivery.py and src/quality/notifications.py pass on. Rows are listed newest first.
use pulse_data_platform.Base.{
  ℕ, String, Bool, true, false, Option, none, some, List, [], ◌∷◌, str_eq, leb, if◌then◌else◌,
}
use pulse_data_platform.Alerts.Rows.{
  Uuid, Severity, AlertStatus, AlertEvent, Json, text, number, uuid_text, Store,
}

-- DELIVERY_KINDS
pub data DeliveryKind : Type 0 where
  initial recurrence escalation : DeliveryKind

-- FINAL_DELIVERY_STATUSES
pub data FinalStatus : Type 0 where
  sent failed skipped : FinalStatus

pub data DeliveryStatus : Type 0 where
  pending : DeliveryStatus
  final : FinalStatus → DeliveryStatus

-- A row of monitoring.alert_deliveries.
pub record Delivery : Type 0 where
  pub delivery_id : Uuid
  pub alert_event_id : Uuid
  pub logical_delivery_key : String
  pub provider : String
  pub destination_key : String
  pub delivery_kind : DeliveryKind
  pub delivery_version : ℕ
  pub escalation_level : ℕ
  pub delivery_status : DeliveryStatus
  pub attempted_at_utc : ℕ
  pub attempt_number : ℕ
  pub completed_at_utc : Option ℕ
  pub external_reference : Option String
  pub error_message : Option String
  pub details : List (String × Json)

-- The monitoring tables that delivery reads and writes.
pub record Monitoring : Type 0 where
  pub store : Store
  pub open store use *
  pub deliveries : List Delivery

pub record AlertNotification : Type 0 where
  pub alert_event_id : Uuid
  pub severity : Severity
  pub lifecycle_status : AlertStatus
  pub title : String
  pub message : String
  pub dataset_name : String
  pub layer : String
  pub first_seen_at_utc : ℕ
  pub last_seen_at_utc : ℕ
  pub occurrence_count : ℕ

pub record DeliveryContext : Type 0 where
  pub logical_delivery_key : String
  pub delivery_kind : DeliveryKind
  pub delivery_version : ℕ
  pub escalation_level : ℕ
  pub destination_key : String
  pub attempt_number : ℕ
  pub attempted_at_utc : ℕ

pub record DeliveryResult : Type 0 where
  pub status : FinalStatus
  pub external_reference : Option String
  pub error_message : Option String
  pub details : List (String × Json)

-- What a call of a provider's `send` does: it returns a result or something that is none, or it
-- raises an exception of the named type.
pub data Sending : Type 0 where
  returned : DeliveryResult → Sending
  no_result : Sending
  raised : String → Sending

pub record Provider : Type 0 where
  pub name : String
  pub send : AlertNotification → DeliveryContext → Sending

pub record DeliveryCandidate : Type 0 where
  pub alert : AlertNotification
  pub provider : String
  pub destination_key : String
  pub delivery_kind : DeliveryKind
  pub delivery_version : ℕ
  pub escalation_level : ℕ

-- `_notification`
unfoldable pub notification : AlertEvent → AlertNotification
notification e = record {
  alert_event_id = e.alert_event_id;
  severity = e.severity;
  lifecycle_status = e.status;
  title = e.title;
  message = e.message;
  dataset_name = e.dataset_name;
  layer = e.layer;
  first_seen_at_utc = e.first_seen_at_utc;
  last_seen_at_utc = e.last_seen_at_utc;
  occurrence_count = e.occurrence_count;
}

abbrev pub kind_text : DeliveryKind → String
kind_text initial = "INITIAL"
kind_text recurrence = "RECURRENCE"
kind_text escalation = "ESCALATION"

-- The list that `logical_delivery_key` hashes.
unfoldable pub delivery_payload : Uuid → String → String → DeliveryKind → ℕ → List Json
delivery_payload alert provider destination kind version =
    text "pulse-delivery-v1"
    ∷ uuid_text alert
    ∷ text provider
    ∷ text destination
    ∷ text (kind_text kind)
    ∷ number version
    ∷ []

-- `DeliveryCandidate.logical_key`; `digest` is "v1:" and the SHA-256 of the JSON text.
unfoldable pub logical_key : (List Json → String) → DeliveryCandidate → String
unfolding delivery_payload
logical_key digest c = digest (
    delivery_payload c.alert.alert_event_id c.provider c.destination_key c.delivery_kind
      c.delivery_version)

-- `LoggingProvider.send`: the log line goes to the logging library.
unfoldable pub logging_provider : Provider
logging_provider = record {
  name = "log";
  send = λ alert context. returned (record {
    status = sent;
    external_reference = none;
    error_message = none;
    details = ("transport", text "local-log") ∷ [];
  });
}

abbrev pub kind_eq : DeliveryKind → DeliveryKind → Bool
kind_eq initial initial = true
kind_eq recurrence recurrence = true
kind_eq escalation escalation = true
kind_eq _ _ = false

abbrev pub is_failed : DeliveryStatus → Bool
is_failed (final failed) = true
is_failed _ = false

abbrev pub is_sent : DeliveryStatus → Bool
is_sent (final sent) = true
is_sent _ = false

abbrev pub is_pending : DeliveryStatus → Bool
is_pending pending = true
is_pending _ = false

abbrev pub has_key : String → Delivery → Bool
has_key k d = str_eq d.logical_delivery_key k

-- The row with the higher attempt number, the first of two that are equal.
abbrev pub later_attempt : Delivery → Option Delivery → Option Delivery
later_attempt d none = some d
later_attempt d (some x) = if leb x.attempt_number d.attempt_number then some d else some x

-- `WHERE p ORDER BY attempt_number DESC LIMIT 1`
unfoldable pub latest_attempt : (Delivery → Bool) → List Delivery → Option Delivery
latest_attempt p [] = none
latest_attempt p (d ∷ ds) =
    let rest = latest_attempt p ds in if p d then later_attempt d rest else rest
