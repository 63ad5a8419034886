-- ===== src/Delivery/Claiming.antt =====
-- `_claim` of src/quality/delivery.py: under the advisory lock of the logical key, one transaction
-- tests the alert and the latest attempt, and inserts the next attempt as PENDING. `uuid5` makes
-- the identity of an attempt from its key and number.
use pulse_data_platform.Base.{
  ℕ, ◌+◌, String, Bool, true, false, not, ◌&&◌, ◌||◌, Option, none, some, List, [], ◌∷◌, find, ltb,
  if◌then◌else◌,
}
use pulse_data_platform.Alerts.Rows.{Uuid, AlertEvent, Json, text, has_id}
use pulse_data_platform.Delivery.Rows.{
  Delivery, pending, Monitoring, DeliveryCandidate, latest_attempt, logical_key, has_key, is_failed,
}
use pulse_data_platform.Delivery.Settings.{DeliveryConfig}
use pulse_data_platform.Delivery.Candidates.{is_still_due, is_delay_over}

-- `alert_row is None or not _candidate_is_still_due(…)`, negated
abbrev pub is_alert_due : DeliveryCandidate → Option AlertEvent → DeliveryConfig → ℕ → Bool
is_alert_due c none config now = false
is_alert_due c (some row) config now = is_still_due c row config now

abbrev pub next_attempt : Option Delivery → ℕ
next_attempt none = 1
next_attempt (some d) = d.attempt_number + 1

-- The latest attempt lets another one follow: there is none, or it failed and, unless forced, its
-- delay is over.
abbrev pub is_free : DeliveryConfig → ℕ → Bool → Option Delivery → Bool
is_free config now force none = true
is_free config now force (some d) =
    is_failed d.delivery_status && (force || is_delay_over config now d.completed_at_utc)

unfoldable pub claimed_row : Uuid → DeliveryCandidate → String → ℕ → ℕ → Delivery
claimed_row id c key attempt now = record {
  delivery_id = id;
  alert_event_id = c.alert.alert_event_id;
  logical_delivery_key = key;
  provider = c.provider;
  destination_key = c.destination_key;
  delivery_kind = c.delivery_kind;
  delivery_version = c.delivery_version;
  escalation_level = c.escalation_level;
  delivery_status = pending;
  attempted_at_utc = now;
  attempt_number = attempt;
  completed_at_utc = none;
  external_reference = none;
  error_message = none;
  details = ("policy", text "pulse-delivery-v1") ∷ [];
}

module _ (digest : List Json → String) (uuid5 : String → ℕ → Uuid) where
  -- The claimed identity and attempt number, with the tables after the claim.
  unfoldable pub claim :
      DeliveryCandidate → DeliveryConfig → ℕ → Bool → Monitoring → Option (Uuid × ℕ × Monitoring)
  unfolding claimed_row
  claim c config now force m =
      let key = logical_key digest c in
      let previous = latest_attempt (has_key key) m.deliveries in
      let attempt = next_attempt previous in
      if is_alert_due c (find (has_id c.alert.alert_event_id) m.events) config now
        && is_free config now force previous
        && not (ltb config.max_attempts attempt)
      then some (
        uuid5 key attempt,
        attempt,
        record m { deliveries = claimed_row (uuid5 key attempt) c key attempt now ∷ m.deliveries },
      )
      else none
