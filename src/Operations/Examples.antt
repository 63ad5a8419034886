-- ===== src/Operations/Examples.antt =====
-- Witnesses for the theorems about orders: a delivery that is revised and reported late again.
use pulse_data_platform.Base.{
  ℕ, ◌≤◌, ◌≡◌, refl, String, true, not, ◌&&◌, none, List, [], ◌∷◌, ◌++◌, All, any, count, err,
  is_blank,
}
use pulse_data_platform.Base.Sorting.{IsSorted, sort_by}
use pulse_data_platform.Base.Strict.{not_after}
use pulse_data_platform.Alerts.Rows.{aware, naive}
use pulse_data_platform.Operations.Statuses.{
  OperationalStatus, shipped, delivered, refused, valid_transition,
}
use pulse_data_platform.Operations.Events.{
  OperationalEvent, same_identity, older_revision, ordered_before, listed_before,
  event_latest_revisions, same_order, latest_order_events, checked_event, not_aware, bad_revision,
}
use pulse_data_platform.Operations.Latest.{keep_all}
use pulse_data_platform.Operations.Revisions.{
  event_latest_revisions_newest, event_latest_revisions_late, latest_order_events_newest,
}
use pulse_data_platform.Operations.Fulfilment.{
  stay, move, is_past_confirmation, Moves-past_confirmation,
}

abbrev report : String → OperationalStatus → ℕ → ℕ → OperationalEvent
report id status at revision = record {
  business_id = "acme";
  source_type = "courier_events";
  source_id = "courier";
  provider = "mock";
  event_id = id;
  external_event_id = id;
  order_id = "A-1";
  event_type = "status";
  canonical_status = status;
  provider_status = "ok";
  event_at = at;
  received_at_utc = at;
  revision = revision;
  corrects_event_id = none;
  shipment_id = none;
  details = [];
}

-- The second event is revised by the third.
abbrev events : List OperationalEvent
events = report "e1" shipped 1 1 ∷ report "e2" refused 5 1 ∷ report "e2" delivered 5 2 ∷ []

revisions_test :
    event_latest_revisions events ≡ report "e1" shipped 1 1 ∷ report "e2" delivered 5 2 ∷ []
unfolding event_latest_revisions sort_by keep_all same_identity listed_before older_revision
revisions_test = refl

latest_test : latest_order_events events ≡ report "e2" delivered 5 2 ∷ []
unfolding latest_order_events keep_all event_latest_revisions sort_by same_identity listed_before
    older_revision same_order
latest_test = refl

naive_test :
    checked_event (naive 4) (aware 4) (report "e1" shipped 0 1) ≡ err (not_aware "event_at")
unfolding checked_event is_blank
naive_test = refl

revision_test : checked_event (aware 4) (aware 4) (report "e1" shipped 0 0) ≡ err bad_revision
unfolding checked_event is_blank
revision_test = refl

event_latest_revisions_newest_example :
    All
      (λ x.
        any (λ e. same_identity x e && not (older_revision e x)) (event_latest_revisions events)
        ≡ true)
      events
    × ((k : OperationalEvent) → count (same_identity k) (event_latest_revisions events) ≤ 1)
    × IsSorted (not_after listed_before) (event_latest_revisions events)
    × ((P : OperationalEvent → Type 0) → All P events → All P (event_latest_revisions events))
event_latest_revisions_newest_example = event_latest_revisions_newest events

event_latest_revisions_late_example :
    event_latest_revisions (events ++ report "e2" refused 5 1 ∷ []) ≡ event_latest_revisions events
unfolding event_latest_revisions sort_by keep_all same_identity listed_before older_revision
event_latest_revisions_late_example =
    event_latest_revisions_late events (report "e2" refused 5 1 ∷ []) (refl, tt)

latest_order_events_newest_example :
    All
      (λ x.
        any (λ e. same_order x e && not (ordered_before e x)) (latest_order_events events) ≡ true)
      (event_latest_revisions events)
    × ((k : OperationalEvent) → count (same_order k) (latest_order_events events) ≤ 1)
    × ((P : OperationalEvent → Type 0)
        → All P (event_latest_revisions events)
        → All P (latest_order_events events))
latest_order_events_newest_example = latest_order_events_newest events

Moves-past_confirmation_example : is_past_confirmation delivered ≡ true
unfolding valid_transition
Moves-past_confirmation_example =
    Moves-past_confirmation shipped delivered refl (move {t = refused} (move stay refl) refl)
