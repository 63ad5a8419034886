-- ===== src/Operations/Events.antt =====
-- `OperationalEvent`, `event_latest_revisions` and `latest_order_events` of
-- src/operations/models.py. Instants are in UTC: the constructor converts them.
use pulse_data_platform.Base.{
  ℕ, String, Bool, ◌&&◌, Option, List, [], str_eq, is_blank, Outcome, ok, err, ◌>>=◌, if◌then◌else◌,
  ltb,
}
use pulse_data_platform.Base.Sorting.{sort_by}
use pulse_data_platform.Base.Strict.{lex, by, text_less, not_after}
use pulse_data_platform.Alerts.Rows.{Json, Stamp, aware, naive}
use pulse_data_platform.Operations.Statuses.{OperationalStatus, status_stage}
use pulse_data_platform.Operations.Latest.{keep_all}

-- The members that have been checked; `event_at` and `received_at_utc` are in UTC.
pub record OperationalEvent : Type 0 where
  pub business_id : String
  pub source_type : String
  pub source_id : String
  pub provider : String
  pub event_id : String
  pub external_event_id : String
  pub order_id : String
  pub event_type : String
  pub canonical_status : OperationalStatus
  pub provider_status : String
  pub event_at : ℕ
  pub received_at_utc : ℕ
  pub revision : ℕ
  pub corrects_event_id : Option String
  pub shipment_id : Option String
  pub details : List (String × Json)

-- The equality of two `logical_identity`.
unfoldable pub same_identity : OperationalEvent → OperationalEvent → Bool
same_identity a b =
    str_eq a.business_id b.business_id
    && str_eq a.source_id b.source_id
    && str_eq a.provider b.provider
    && str_eq a.external_event_id b.external_event_id

-- `(event.revision, event.received_at_utc, event.event_id)`
unfoldable pub older_revision : OperationalEvent → OperationalEvent → Bool
unfolding text_less
older_revision =
    lex (by (λ e. e.revision) ltb)
      (lex (by (λ e. e.received_at_utc) ltb) (by (λ e. e.event_id) text_less))

-- The order of `ordering_key`.
unfoldable pub ordered_before : OperationalEvent → OperationalEvent → Bool
unfolding text_less status_stage
ordered_before = lex (by (λ e. e.event_at) ltb) (
    lex (by (λ e. e.revision) ltb)
      (lex (by (λ e. status_stage e.canonical_status) ltb) (by (λ e. e.event_id) text_less)))

-- `(*event.logical_identity, event.ordering_key)`
unfoldable pub listed_before : OperationalEvent → OperationalEvent → Bool
unfolding text_less ordered_before
listed_before = lex (by (λ e. e.business_id) text_less) (
    lex (by (λ e. e.source_id) text_less) (
      lex (by (λ e. e.provider) text_less)
        (lex (by (λ e. e.external_event_id) text_less) ordered_before)))

unfoldable pub event_latest_revisions : List OperationalEvent → List OperationalEvent
event_latest_revisions events =
    sort_by (not_after listed_before) (keep_all same_identity older_revision events [])

-- The equality of two keys `(event.business_id, event.order_id)`.
unfoldable pub same_order : OperationalEvent → OperationalEvent → Bool
same_order a b = str_eq a.business_id b.business_id && str_eq a.order_id b.order_id

-- The values of the dictionary, whose keys are the members of the values.
unfoldable pub latest_order_events : List OperationalEvent → List OperationalEvent
latest_order_events events = keep_all same_order ordered_before (event_latest_revisions events) []

-- The checks of the constructor: the messages.
pub data EventError : Type 0 where
  required : String → EventError
  bad_revision : EventError
  not_aware : String → EventError

abbrev utc : String → Stamp → Outcome EventError ℕ
utc name (aware t) = ok t
utc name (naive t) = err (not_aware name)

abbrev check_required : String → String → Outcome EventError (Unit {0})
check_required name value = if is_blank value then err (required name) else ok tt

abbrev check_revision : ℕ → Outcome EventError (Unit {0})
check_revision n = if ltb n 1 then err bad_revision else ok tt

-- `__post_init__`: the two instants of `e` are set from the arguments.
unfoldable pub checked_event :
    Stamp → Stamp → OperationalEvent → Outcome EventError OperationalEvent
checked_event event_at received_at e = do
  _ ← check_required "provider" e.provider
  _ ← check_required "event_id" e.event_id
  _ ← check_required "external_event_id" e.external_event_id
  _ ← check_required "order_id" e.order_id
  _ ← check_required "provider_status" e.provider_status
  _ ← check_revision e.revision
  at ← utc "event_at" event_at
  received ← utc "received_at_utc" received_at
  ok (record e { event_at = at; received_at_utc = received })
