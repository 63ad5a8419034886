-- ===== src/Delivery/Candidates.antt =====
-- `_candidate_is_still_due` and `_discover_candidates` of src/quality/delivery.py. Instants are
-- microseconds; a comparison with `now - delay` is written with the delay on the other side. A
-- final delivery has its completion time (monitoring.sql), so a missing one counts as not yet due.
use pulse_data_platform.Base.{
  ℕ, ◌+◌, ◌*◌, Bool, true, false, ◌&&◌, ◌||◌, Option, none, some, List, [], ◌∷◌, ◌++◌, str_eq, ◌==◌,
  leb, ltb, select, take, if◌then◌else◌,
}
use pulse_data_platform.Base.Sorting.{sort_by}
use pulse_data_platform.Alerts.Rows.{
  Uuid, Severity, critical, AlertStatus, open_status, AlertEvent, is_active, is_resolved,
}
use pulse_data_platform.Delivery.Rows.{
  DeliveryKind, initial, recurrence, escalation, Delivery, Monitoring, DeliveryCandidate,
  notification, latest_attempt, kind_eq, is_failed, is_sent,
}
use pulse_data_platform.Delivery.Settings.{DeliveryConfig}

-- `timedelta(minutes=m)`
abbrev pub minutes : ℕ → ℕ
minutes m = m * 60_000_000

abbrev pub is_open : AlertStatus → Bool
is_open open_status = true
is_open _ = false

abbrev pub is_critical_alert : Severity → Bool
is_critical_alert critical = true
is_critical_alert _ = false

-- The test of one kind, on an alert that is not resolved.
unfoldable pub is_kind_due : DeliveryKind → ℕ → AlertEvent → DeliveryConfig → ℕ → Bool
unfolding is_active
is_kind_due initial version row config now = is_open row.status
is_kind_due recurrence version row config now =
    is_active row.status && leb 2 config.recurrence_threshold && leb version row.occurrence_count
is_kind_due escalation version row config now =
    is_open row.status
    && is_critical_alert row.severity
    && ltb 0 config.critical_escalation_minutes
    && leb (row.first_seen_at_utc + minutes config.critical_escalation_minutes) now

unfoldable pub is_still_due : DeliveryCandidate → AlertEvent → DeliveryConfig → ℕ → Bool
unfolding is_resolved is_kind_due
is_still_due c row config now =
    if is_resolved row.status
    then false
    else is_kind_due c.delivery_kind c.delivery_version row config now

-- `completed_at_utc + timedelta(minutes=retry_delay_minutes) <= now`
abbrev pub is_delay_over : DeliveryConfig → ℕ → Option ℕ → Bool
is_delay_over config now none = false
is_delay_over config now (some t) = leb (t + minutes config.retry_delay_minutes) now

-- The rows that a LEFT JOIN LATERAL of the query reads.
abbrev pub is_delivery_of : DeliveryConfig → DeliveryKind → ℕ → Uuid → Delivery → Bool
is_delivery_of config kind version alert d =
    d.alert_event_id == alert
    && str_eq d.provider config.provider
    && str_eq d.destination_key config.destination_key
    && kind_eq d.delivery_kind kind
    && d.delivery_version == version

-- No attempt was made, or the latest failed, is not the last and lies long enough back.
abbrev pub is_awaited : DeliveryConfig → ℕ → Option Delivery → Bool
is_awaited config now none = true
is_awaited config now (some d) =
    is_failed d.delivery_status
    && ltb d.attempt_number config.max_attempts
    && is_delay_over config now d.completed_at_utc

abbrev pub was_sent : Option Delivery → Bool
was_sent none = false
was_sent (some d) = is_sent d.delivery_status

module _ (config : DeliveryConfig) (now : ℕ) (ds : List Delivery) where
  unfoldable pub joined : DeliveryKind → ℕ → AlertEvent → Option Delivery
  unfolding latest_attempt
  joined kind version e = latest_attempt (is_delivery_of config kind version e.alert_event_id) ds

  unfoldable pub initial_due : AlertEvent → Bool
  unfolding joined
  initial_due e = is_open e.status && is_awaited config now (joined initial 1 e)

  unfoldable pub recurrence_due : AlertEvent → Bool
  unfolding joined
  recurrence_due e =
      leb 2 config.recurrence_threshold
      && leb config.recurrence_threshold e.occurrence_count
      && is_awaited config now (joined recurrence config.recurrence_threshold e)

  unfoldable pub escalation_due : AlertEvent → Bool
  unfolding joined
  escalation_due e =
      ltb 0 config.critical_escalation_minutes
      && is_open e.status
      && is_critical_alert e.severity
      && was_sent (joined initial 1 e)
      && leb (e.first_seen_at_utc + minutes config.critical_escalation_minutes) now
      && is_awaited config now (joined escalation 1 e)

  unfoldable pub is_due : AlertEvent → Bool
  unfolding initial_due recurrence_due escalation_due is_active
  is_due e = is_active e.status && (initial_due e || recurrence_due e || escalation_due e)

  unfoldable pub candidate : DeliveryKind → ℕ → ℕ → AlertEvent → DeliveryCandidate
  unfolding notification
  candidate kind version level e = record {
    alert = notification e;
    provider = config.provider;
    destination_key = config.destination_key;
    delivery_kind = kind;
    delivery_version = version;
    escalation_level = level;
  }

  -- The candidates of one row of the query.
  unfoldable pub row_candidates : AlertEvent → List DeliveryCandidate
  row_candidates e =
      (if initial_due e then candidate initial 1 0 e ∷ [] else [])
      ++ ((if recurrence_due e
            then candidate recurrence config.recurrence_threshold 0 e ∷ []
            else [])
          ++ (if ltb 0 config.critical_escalation_minutes && escalation_due e
              then candidate escalation 1 1 e ∷ []
              else []))

  unfoldable pub all_candidates : List AlertEvent → List DeliveryCandidate
  unfolding row_candidates candidate
  all_candidates [] = []
  all_candidates (e ∷ es) = row_candidates e ++ all_candidates es

-- `ORDER BY first_seen_at_utc,alert_event_id`
unfoldable pub seen_before : AlertEvent → AlertEvent → Bool
seen_before a b =
    ltb a.first_seen_at_utc b.first_seen_at_utc
    || a.first_seen_at_utc == b.first_seen_at_utc && leb a.alert_event_id b.alert_event_id

unfoldable pub discover_candidates : DeliveryConfig → ℕ → ℕ → Monitoring → List DeliveryCandidate
unfolding all_candidates is_due seen_before sort_by
discover_candidates config now limit m =
    all_candidates config now m.deliveries
      (take limit (sort_by seen_before (select (is_due config now m.deliveries) m.events)))
