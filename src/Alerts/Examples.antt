-- ===== src/Alerts/Examples.antt =====
-- Witnesses for the theorems about alerts: a quality failure, its retry, and an operator.
use pulse_data_platform.Base.{
  ℕ, ◌+◌, ◌⊎◌, ◌≡◌, refl, String, Bool, true, false, none, some, List, [], ◌∷◌, arith, count, find,
  All, map, length, negsuc, ok, err, ◌↔◌, is_blank, strip, select, ◌≤◌,
}
use pulse_data_platform.Base.Sorting.{insert_by, sort_by}
use pulse_data_platform.Alerts.Rows.{
  Uuid, Json, text, aware, critical, quality_failure, open_status, acknowledged, Execution,
  AlertEvent, Store, is_active, has_id, is_active_for,
}
use pulse_data_platform.Alerts.Identity.{Condition, incident_key, payload, blank_operator}
use pulse_data_platform.Alerts.Lifecycle.{◌⟶◌}
use pulse_data_platform.Alerts.Recording.{
  Observation, record_alert, open_incident, opened, receipt, audit, report_again,
}
use pulse_data_platform.Alerts.Changing.{change_status, transitioned}
use pulse_data_platform.Alerts.Invariant.{IsValid}
use pulse_data_platform.Alerts.Validity.{record_alert-IsValid}
use pulse_data_platform.Alerts.Transitions.{change_status-IsValid, change_status_iff, Answer}
use pulse_data_platform.Alerts.Replays.{tally, record_alert_retry}
use pulse_data_platform.Alerts.Progress.{
  Grows, record_alert-Grows, record_alert_active, record_alert_replay,
}
use pulse_data_platform.Alerts.Totality.{IsAccepted, record_alert_returns_iff}
use pulse_data_platform.Alerts.Incidents.{SameIncident, incident_key_separates}
use pulse_data_platform.Alerts.Listing.{
  list_alerts, is_listed, Matches, Before, InOrder, list_alerts_sound,
}
use pulse_data_platform.Alerts.Canonical.{Entry, canonical}
use pulse_data_platform.Base.Strict.{text_less}

-- A digest that keeps the first text apart from none.
abbrev pub digest : List Json → String
digest (_ ∷ _ ∷ text d ∷ _) = d
digest _ = "v1:"

abbrev pub run : Execution
run = record {
  execution_source = "cli";
  execution_id = "run-1";
  dag_id = none;
  airflow_run_id = none;
  task_id = none;
  attempt_number = 1;
  map_index = negsuc 0;
  logical_date_utc = none;
}

abbrev pub null_ratio : Condition
null_ratio = record {
  source_type = quality_failure;
  dataset_name = "orders";
  layer = "silver";
  metric_name = "null_ratio";
  check_name = some "order_id_nulls";
  dimensions = none;
}

abbrev pub report : Uuid → ℕ → Observation
report id at = record {
  occurrence_id = id;
  condition = null_ratio;
  source_id = 70;
  severity = critical;
  title = "Nulls";
  message = "order_id has nulls";
  seen_at = aware at;
  context = run;
  details = none;
}

abbrev pub empty : Store
empty = record { events = []; occurrences = []; history = [] }

pub empty-IsValid : IsValid empty
empty-IsValid = record {
  one_active = λ k. omega arith;
  one_event = λ i. omega arith;
  one_receipt = λ i. omega arith;
  receipts_linked = λ i h. refl;
  history_linked = λ i h. refl;
  counted = tt;
  audited = tt;
  ordered = tt;
  trail = tt;
}

-- The tables after the first report, and after an operator acknowledged it.
abbrev pub opened_store : Store
opened_store = open_incident 1 5 (report 9 100) "orders" 100 empty

abbrev row : AlertEvent
row = opened 1 (report 9 100) "orders" 100

abbrev acknowledged_store : Store
acknowledged_store = record opened_store {
  events = transitioned acknowledged "ops" none 8 row ∷ [];
  history = audit 1 (some open_status) acknowledged "ops" none 8 ∷ opened_store.history;
}

first_report_test : record_alert digest 1 5 (report 9 100) empty ≡ ok (1, opened_store)
unfolding record_alert is_blank payload canonical sort_by
first_report_test = refl

acknowledge_test : change_status 8 1 acknowledged " ops " none opened_store ≡ ok acknowledged_store
unfolding change_status is_blank strip open_incident opened
acknowledge_test = refl

blank_operator_test : change_status 8 1 acknowledged "  " none opened_store ≡ err blank_operator
unfolding change_status is_blank
blank_operator_test = refl

pub opened_store-IsValid : IsValid opened_store
opened_store-IsValid =
    record_alert-IsValid digest 1 5 (report 9 100) empty 1 opened_store empty-IsValid refl
      first_report_test

record_alert-IsValid_example : IsValid opened_store
record_alert-IsValid_example =
    record_alert-IsValid digest 1 5 (report 9 100) empty 1 opened_store empty-IsValid refl
      first_report_test

change_status-IsValid_example :
    IsValid acknowledged_store
    × ((e : AlertEvent) × (y : AlertEvent) × (find (has_id 1) opened_store.events ≡ some e)
        × (e.status ⟶ acknowledged)
        × (find (has_id 1) acknowledged_store.events ≡ some y)
        × (y.status ≡ acknowledged)
        × (acknowledged_store.history
            ≡ audit 1 (some e.status) acknowledged (strip " ops ") none 8 ∷ opened_store.history))
    × (acknowledged_store.occurrences ≡ opened_store.occurrences)
    × ((k : String)
        → count (is_active_for k) acknowledged_store.events
          ≤ count (is_active_for k) opened_store.events)
change_status-IsValid_example =
    change_status-IsValid 8 1 acknowledged " ops " none opened_store acknowledged_store
      opened_store-IsValid acknowledge_test

change_status_iff_example :
    (((t : Store) × (change_status 8 1 acknowledged "ops" none opened_store ≡ ok t)) ↔ (
      (is_blank "ops" ≡ false)
      × ((e : AlertEvent) × (find (has_id 1) opened_store.events ≡ some e)
          × (e.status ⟶ acknowledged))))
    × Answer 8 1 acknowledged "ops" none opened_store
        (change_status 8 1 acknowledged "ops" none opened_store)
change_status_iff_example = change_status_iff 8 1 acknowledged "ops" none opened_store

record_alert_retry_example :
    record_alert digest 2 6 (report 9 100) opened_store ≡ ok (1, opened_store)
record_alert_retry_example =
    record_alert_retry digest 1 2 5 6 (report 9 100) empty 1 opened_store refl first_report_test

record_alert_replay_example :
    (1 ≡ (receipt 1 (report 9 100) "orders" 100).alert_event_id)
    × (opened_store.occurrences ≡ opened_store.occurrences)
    × (opened_store.history ≡ opened_store.history)
    × (map tally opened_store.events ≡ map tally opened_store.events)
unfolding open_incident receipt
record_alert_replay_example =
    record_alert_replay digest 2 6 (report 9 100) opened_store 1 opened_store
      (receipt 1 (report 9 100) "orders" 100) refl record_alert_retry_example

-- A second run of the check reports the same incident.
abbrev again_store : Store
again_store = report_again 1 (report 10 300) "orders" 300 opened_store

second_report_test : record_alert digest 2 6 (report 10 300) opened_store ≡ ok (1, again_store)
unfolding record_alert is_blank payload canonical sort_by open_incident opened receipt is_active
second_report_test = refl

record_alert-Grows_example :
    (f : AlertEvent) × (find (has_id 1) again_store.events ≡ some f) × Grows row f
unfolding open_incident opened
record_alert-Grows_example =
    record_alert-Grows digest 2 6 (report 10 300) opened_store 1 again_store refl second_report_test
      1 row refl

record_alert_active_example :
    (key : String) × (incident_key digest null_ratio ≡ ok key)
    × (count (is_active_for key) again_store.events ≡ 1)
    × ((e : AlertEvent) × (find (is_active_for key) again_store.events ≡ some e)
        × (e.alert_event_id ≡ 1))
unfolding open_incident opened receipt
record_alert_active_example =
    record_alert_active digest 2 6 (report 10 300) opened_store 1 again_store opened_store-IsValid
      refl refl second_report_test

record_alert_returns_iff_example :
    ((i : Uuid) × (t : Store) × (record_alert digest 2 6 (report 10 300) opened_store ≡ ok (i, t)))
    ↔ IsAccepted digest (report 10 300) opened_store
record_alert_returns_iff_example =
    record_alert_returns_iff digest 2 6 (report 10 300) opened_store opened_store-IsValid

abbrev split : List Entry → Condition
split dimensions = record null_ratio { dimensions = some dimensions }

abbrev by_market : List Entry
by_market = ("market", "PL") ∷ ("channel", "web") ∷ []

abbrev by_channel : List Entry
by_channel = ("channel", "web") ∷ ("market", "PL") ∷ []

-- The order of the dimensions does not count.
order_test : incident_key digest (split by_market) ≡ incident_key digest (split by_channel)
unfolding incident_key payload canonical sort_by insert_by text_less
order_test = refl

payload_test : payload (split by_market) ≡ payload (split by_channel)
unfolding payload canonical sort_by insert_by text_less
payload_test = refl

incident_key_separates_example :
    (◌≡◌ {A = String} (digest (payload (split by_market))) (digest (payload (split by_channel))))
    ↔ SameIncident (split by_market) (split by_channel)
unfolding incident_key is_blank
incident_key_separates_example =
    incident_key_separates digest (split by_market) (split by_channel)
      (digest (payload (split by_market))) (digest (payload (split by_channel))) (refl, (refl, tt))
      (refl, (refl, tt)) (λ same. payload_test) refl refl

listing_test : list_alerts none (some "orders") none (some critical) 10 opened_store ≡ ok (row ∷ [])
unfolding list_alerts is_listed open_incident opened is_active sort_by
listing_test = refl

list_alerts_sound_example :
    (length (row ∷ []) ≤ 10)
    × (10 ≤ 1000)
    × All (Matches none (some "orders") none (some critical)) (row ∷ [])
    × InOrder (row ∷ [])
    × ((e : AlertEvent)
        → (is_listed none (some "orders") none (some critical) e ≡ true)
          ↔ Matches none (some "orders") none (some critical) e)
    × ((rest : List AlertEvent) × ((p : AlertEvent → Bool)
          → count p (row ∷ []) + count p rest
            ≡ count p
                (select (is_listed none (some "orders") none (some critical)) opened_store.events))
        × All (λ e. All (Before e) rest) (row ∷ [])
        × ((length (row ∷ []) ≡ 10) ⊎ (rest ≡ [])))
list_alerts_sound_example =
    list_alerts_sound none (some "orders") none (some critical) 10 opened_store (row ∷ [])
      listing_test
