-- ===== src/Delivery/Examples.antt =====
-- Witnesses for the theorems about delivery: one critical alert and the log provider.
use pulse_data_platform.Base.{
  ℕ, ◌+◌, ◌≤◌, ◌≡◌, refl, strip, String, false, Option, none, some, List, [], ◌∷◌, ℤ, count, length,
  ok, err, All, arith,
}
use pulse_data_platform.Alerts.Rows.{Uuid, Json, text, dict, AlertEvent, is_active}
use pulse_data_platform.Alerts.Recording.{opened, open_incident}
use pulse_data_platform.Alerts.Examples.{digest, report, opened_store}
use pulse_data_platform.Delivery.Rows.{
  FinalStatus, sent, failed, notification, delivery_payload, Monitoring, DeliveryCandidate,
  DeliveryResult, Provider, raised, logging_provider, initial, logical_key, has_key, latest_attempt,
}
use pulse_data_platform.Delivery.Settings.{
  completion_failed, DeliveryConfig, from_environ, configured_provider, configured_destination,
  read_numbers, integer, from_environ-IsConfig, IsConfig,
}
use pulse_data_platform.Delivery.Candidates.{
  candidate, is_still_due, row_candidates, discover_candidates, initial_due, recurrence_due,
  escalation_due, joined,
}
use pulse_data_platform.Delivery.Claiming.{claim, claimed_row}
use pulse_data_platform.Delivery.Attempts.{complete, completed_row, attempt}
use pulse_data_platform.Delivery.Running.{RunSummary, deliver_due}
use pulse_data_platform.Delivery.Ledger.{is_live_for}
use pulse_data_platform.Delivery.Interleavings.{
  Reach, here, next, claims, completes, Reach_sent_once,
}
use pulse_data_platform.Delivery.Accounting.{is_waiting, deliver_due_accounts}
use pulse_data_platform.Delivery.Settled.{is_settled_as, reported}
use pulse_data_platform.Delivery.Promptness.{IsClaimed, row_candidates-IsClaimed}

abbrev uuid5 : String → ℕ → Uuid
uuid5 k n = 1000 + n

abbrev encode : List (String × Json) → Option Json
encode d = some (dict [])

abbrev config : DeliveryConfig
config = record {
  provider = "log";
  destination_key = "local-log";
  max_attempts = 3;
  retry_delay_minutes = 5;
  critical_escalation_minutes = 60;
  recurrence_threshold = 0;
}

abbrev no_int : String → Option ℤ
no_int s = none

abbrev same_text : String → String
same_text s = s

default_config_test : from_environ no_int same_text [] ≡ ok config
unfolding from_environ configured_provider configured_destination read_numbers integer strip
default_config_test = refl

from_environ-IsConfig_example : IsConfig config
from_environ-IsConfig_example = from_environ-IsConfig no_int same_text [] config default_config_test

abbrev before : Monitoring
before = record { store = opened_store; deliveries = [] }

abbrev alert : AlertEvent
alert = opened 1 (report 9 100) "orders" 100

abbrev due : DeliveryCandidate
due = candidate config 200 [] initial 1 0 alert

abbrev claimed : Monitoring
claimed = record before { deliveries = claimed_row 1001 due (logical_key digest due) 1 200 ∷ [] }

claim_test : claim digest uuid5 due config 200 false before ≡ some (1001, 1, claimed)
unfolding claim candidate open_incident opened is_still_due latest_attempt
claim_test = refl

abbrev answer : DeliveryResult
answer = record {
  status = sent;
  external_reference = none;
  error_message = none;
  details = ("transport", text "local-log") ∷ [];
}

abbrev delivered : Monitoring
delivered = record before {
  deliveries =
      completed_row (dict []) answer 200 (claimed_row 1001 due (logical_key digest due) 1 200) ∷ [];
}

complete_test : complete encode 1001 answer 200 claimed ≡ ok delivered
unfolding complete claimed_row
complete_test = refl

history : Reach digest uuid5 encode config before delivered
history =
    next (next here (claims due 200 false 1001 1 claim_test))
      (completes 1001 answer 200 complete_test)

Reach_sent_once_example :
    (count (is_live_for (logical_key digest due)) delivered.deliveries ≤ 1)
    × (count (has_key (logical_key digest due)) delivered.deliveries ≤ 3)
Reach_sent_once_example =
    Reach_sent_once digest uuid5 encode config before delivered (logical_key digest due) refl
      history

abbrev summary : RunSummary
summary = record {
  candidates = 1;
  attempted = 1;
  sent_count = 1;
  failed_count = 0;
  skipped_count = 0;
  deferred = 0;
}

deliver_due_test :
    deliver_due digest uuid5 encode config logging_provider 200 100 before ≡ ok (summary, delivered)
unfolding deliver_due claim candidate open_incident opened is_still_due latest_attempt
    logging_provider row_candidates complete claimed_row
deliver_due_test = refl

deliver_due_accounts_example :
    (1 ≡ 1 + 0)
    × (1 ≡ length (discover_candidates config 200 100 before))
    × (1 ≡ 1 + 0 + 0)
    × (count is_waiting delivered.deliveries ≡ count is_waiting before.deliveries)
    × ((q : FinalStatus)
        → count (is_settled_as q) delivered.deliveries
          ≡ count (is_settled_as q) before.deliveries + reported q summary)
deliver_due_accounts_example =
    deliver_due_accounts digest uuid5 encode config logging_provider 200 100 before summary
      delivered deliver_due_test

-- The candidate's first attempt failed; five minutes later the next one is due.
abbrev unanswered : DeliveryResult
unanswered = record {
  status = failed;
  external_reference = none;
  error_message = none;
  details = [];
}

abbrev failed_before : Monitoring
failed_before = record before {
  deliveries =
      completed_row (dict []) unanswered 200 (claimed_row 1001 due (logical_key digest due) 1 200)
      ∷ [];
}

abbrev retry_time : ℕ
retry_time = 300_000_200

retried_test :
    row_candidates config retry_time failed_before.deliveries alert
    ≡ candidate config retry_time [] initial 1 0 alert ∷ []
unfolding row_candidates candidate initial_due recurrence_due escalation_due joined latest_attempt
    completed_row claimed_row opened notification
retried_test = refl

row_candidates-IsClaimed_example :
    All
      (IsClaimed digest uuid5 config retry_time failed_before)
      (row_candidates config retry_time failed_before.deliveries alert)
unfolding row_candidates candidate initial_due recurrence_due escalation_due joined latest_attempt
    completed_row claimed_row opened notification open_incident logical_key delivery_payload
    is_active
row_candidates-IsClaimed_example =
    row_candidates-IsClaimed digest uuid5 config retry_time failed_before alert (omega arith) refl
      refl ((record { keyed = refl; no_collision = λ _. refl }, tt), tt)

-- A provider that raises.
abbrev broken : Provider
broken = record { name = "log"; send = λ a c. raised "TimeoutError" }

-- Details that are no JSON: the claimed row stays PENDING.
abbrev encodes_none : List (String × Json) → Option Json
encodes_none d = none

unstored_test :
    attempt digest uuid5 encodes_none due config logging_provider 200 false before
    ≡ err completion_failed
unfolding attempt claim candidate open_incident opened is_still_due latest_attempt logging_provider
    complete claimed_row
unstored_test = refl
