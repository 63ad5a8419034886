-- ===== src/Delivery/Running.antt =====
-- `deliver_due`, `list_deliveries` and `retry_delivery` of src/quality/delivery.py.
use pulse_data_platform.Base.{
  ℕ, ◌+◌, String, Bool, true, false, not, ◌&&◌, ◌||◌, Option, none, some, List, [], ◌∷◌, length,
  any, find, select, take, str_eq, ◌==◌, leb, ltb, Outcome, ok, err, ◌>>=◌, if◌then◌else◌,
}
use pulse_data_platform.Base.Sorting.{sort_by}
use pulse_data_platform.Alerts.Rows.{Uuid, Json, AlertEvent, has_id}
use pulse_data_platform.Delivery.Rows.{
  Delivery, DeliveryStatus, pending, final, FinalStatus, sent, failed, skipped, Monitoring,
  DeliveryCandidate, Provider, notification, latest_attempt, has_key, is_failed,
}
use pulse_data_platform.Delivery.Settings.{
  DeliveryConfig, DeliveryError, provider_unavailable, bad_limit, bad_statuses, delivery_not_found,
  not_latest_failed, not_eligible,
}
use pulse_data_platform.Delivery.Candidates.{discover_candidates}
use pulse_data_platform.Delivery.Attempts.{attempt}

pub record RunSummary : Type 0 where
  pub candidates : ℕ
  pub attempted : ℕ
  pub sent_count : ℕ
  pub failed_count : ℕ
  pub skipped_count : ℕ
  pub deferred : ℕ

-- One turn of the counting loop.
unfoldable pub tallied : Option FinalStatus → RunSummary → RunSummary
tallied none r = record r { deferred = r.deferred + 1 }
tallied (some sent) r = record r { attempted = r.attempted + 1; sent_count = r.sent_count + 1 }
tallied (some failed) r = record r {
  attempted = r.attempted + 1;
  failed_count = r.failed_count + 1;
}
tallied (some skipped) r = record r {
  attempted = r.attempted + 1;
  skipped_count = r.skipped_count + 1;
}

-- `1 <= limit <= 1000`
abbrev pub is_limit : ℕ → Bool
is_limit limit = leb 1 limit && leb limit 1000

-- `ORDER BY attempted_at_utc,delivery_id`
unfoldable pub attempted_before : Delivery → Delivery → Bool
attempted_before a b =
    ltb a.attempted_at_utc b.attempted_at_utc
    || a.attempted_at_utc == b.attempted_at_utc && leb a.delivery_id b.delivery_id

abbrev status_matches : DeliveryStatus → DeliveryStatus → Bool
status_matches pending pending = true
status_matches (final sent) (final sent) = true
status_matches (final failed) (final failed) = true
status_matches (final skipped) (final skipped) = true
status_matches _ _ = false

abbrev is_nil : List DeliveryStatus → Bool
is_nil [] = true
is_nil (x ∷ xs) = false

unfoldable pub list_deliveries :
    List DeliveryStatus → ℕ → Monitoring → Outcome DeliveryError (List Delivery)
list_deliveries statuses limit m =
    if is_nil statuses
    then err bad_statuses
    else if not (is_limit limit)
    then err bad_limit
    else ok (
        take limit (
          sort_by attempted_before
            (select (λ d. any (status_matches d.delivery_status) statuses) m.deliveries)))

module _ (digest : List Json → String) (uuid5 : String → ℕ → Uuid)
    (encode : List (String × Json) → Option Json) where
  -- The loop over the candidates; an error of the storage ends it.
  unfoldable pub deliver_each :
      DeliveryConfig
      → Provider
      → ℕ
      → List DeliveryCandidate
      → RunSummary
      → Monitoring
      → Outcome DeliveryError (RunSummary × Monitoring)
  unfolding attempt tallied
  deliver_each config provider now [] r m = ok (r, m)
  deliver_each config provider now (c ∷ cs) r m = do
    (status, m') ← attempt digest uuid5 encode c config provider now false m
    deliver_each config provider now cs (tallied status r) m'

  unfoldable pub deliver_due :
      DeliveryConfig
      → Provider
      → ℕ
      → ℕ
      → Monitoring
      → Outcome DeliveryError (RunSummary × Monitoring)
  unfolding deliver_each discover_candidates
  deliver_due config provider now limit m =
      let cs = discover_candidates config now limit m in
      if not (is_limit limit)
      then err bad_limit
      else if not (str_eq provider.name config.provider)
      then err provider_unavailable
      else deliver_each config provider now cs
          (record {
            candidates = length cs;
            attempted = 0;
            sent_count = 0;
            failed_count = 0;
            skipped_count = 0;
            deferred = 0;
          })
          m

  -- `latest["delivery_id"] != identity or latest["delivery_status"] != "FAILED"`, negated
  abbrev pub is_latest_failed : Uuid → Option Delivery → Bool
  is_latest_failed id none = false
  is_latest_failed id (some d) = d.delivery_id == id && is_failed d.delivery_status

  unfoldable pub retry_candidate : Delivery → AlertEvent → DeliveryCandidate
  unfolding notification
  retry_candidate d e = record {
    alert = notification e;
    provider = d.provider;
    destination_key = d.destination_key;
    delivery_kind = d.delivery_kind;
    delivery_version = d.delivery_version;
    escalation_level = d.escalation_level;
  }

  abbrev or_ineligible :
      Option FinalStatus × Monitoring → Outcome DeliveryError (FinalStatus × Monitoring)
  or_ineligible (none, m) = err not_eligible
  or_ineligible (some status, m) = ok (status, m)

  unfoldable pub retry_found :
      Uuid
      → DeliveryConfig
      → Provider
      → ℕ
      → Monitoring
      → Option Delivery
      → Option AlertEvent
      → Outcome DeliveryError (FinalStatus × Monitoring)
  unfolding attempt retry_candidate
  retry_found id config provider now m none e = err delivery_not_found
  retry_found id config provider now m (some d) none = err delivery_not_found
  retry_found id config provider now m (some d) (some e) =
      if is_latest_failed id (latest_attempt (has_key d.logical_delivery_key) m.deliveries)
      then (do
        done ← attempt digest uuid5 encode (retry_candidate d e) config provider now true m
        or_ineligible done)
      else err not_latest_failed

  abbrev alert_of : Option Delivery → List AlertEvent → Option AlertEvent
  alert_of none es = none
  alert_of (some d) es = find (has_id d.alert_event_id) es

  unfoldable pub retry_delivery :
      Uuid
      → DeliveryConfig
      → Provider
      → ℕ
      → Monitoring
      → Outcome DeliveryError (FinalStatus × Monitoring)
  unfolding retry_found
  retry_delivery id config provider now m =
      let row = find (λ d. d.delivery_id == id) m.deliveries in
      if not (str_eq provider.name config.provider)
      then err provider_unavailable
      else retry_found id config provider now m row (alert_of row m.events)
