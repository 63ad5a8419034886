-- ===== src/Delivery/Interleavings.antt =====
-- Any number of delivery workers and retries against one outbox (src/quality/delivery.py). Each
-- claim and each completion is one transaction; between them other workers claim and complete, and
-- `record_alert` and `change_status` change the alerts.
use pulse_data_platform.Base.{ℕ, ◌≤◌, ◌≡◌, String, Bool, Option, some, List, [], count, ok}
use pulse_data_platform.Alerts.Rows.{Uuid, Json, Store, AlertStatus}
use pulse_data_platform.Alerts.Recording.{Observation, record_alert}
use pulse_data_platform.Alerts.Changing.{change_status}
use pulse_data_platform.Delivery.Rows.{Monitoring, DeliveryCandidate, DeliveryResult, has_key}
use pulse_data_platform.Delivery.Settings.{DeliveryConfig}
use pulse_data_platform.Delivery.Claiming.{claim}
use pulse_data_platform.Delivery.Attempts.{complete}
use pulse_data_platform.Delivery.Ledger.{
  IsOutbox, claim-IsOutbox, complete-IsOutbox, is_live_for, one_live, few_attempts,
}

module _ (digest : List Json → String) (uuid5 : String → ℕ → Uuid)
    (encode : List (String × Json) → Option Json) (config : DeliveryConfig) where
  -- One transaction of any process.
  pub data Step : Monitoring → Monitoring → Type 0 where
    claims :
        {m m' : Monitoring} (c : DeliveryCandidate) (now : ℕ) (force : Bool) (id : Uuid) (n : ℕ)
        → claim digest uuid5 c config now force m ≡ some (id, n, m')
        → Step m m'
    completes :
        {m m' : Monitoring} (id : Uuid) (r : DeliveryResult) (at : ℕ)
        → complete encode id r at m ≡ ok m'
        → Step m m'
    records :
        {m : Monitoring} (fresh : Uuid) (now : ℕ) (o : Observation) (i : Uuid) (s : Store)
        → record_alert digest fresh now o m.store ≡ ok (i, s)
        → Step m (record m { store = s })
    changes :
        {m : Monitoring} (now : ℕ) (i : Uuid) (target : AlertStatus) (by : String)
        (remark : Option String) (s : Store)
        → change_status now i target by remark m.store ≡ ok s
        → Step m (record m { store = s })

  pub data Reach (m : Monitoring) : Monitoring → Type 0 where
    here : Reach m m
    next : {t u : Monitoring} → Reach m t → Step t u → Reach m u

  Step-IsOutbox :
      {m m' : Monitoring}
      → Step m m'
      → IsOutbox config.max_attempts m.deliveries
      → IsOutbox config.max_attempts m'.deliveries
  Step-IsOutbox {m} {m'} (claims c now force id n e) h =
      claim-IsOutbox digest uuid5 c config now force m id n m' h e
  Step-IsOutbox {m} {m'} (completes id r at e) h =
      complete-IsOutbox encode config.max_attempts id r at m m' h e
  Step-IsOutbox (records fresh now o i s e) h = h
  Step-IsOutbox (changes now i target by remark s e) h = h

  Reach-IsOutbox :
      {m m' : Monitoring}
      → Reach m m'
      → IsOutbox config.max_attempts m.deliveries
      → IsOutbox config.max_attempts m'.deliveries
  Reach-IsOutbox here h = h
  Reach-IsOutbox (next r st) h = Step-IsOutbox st (Reach-IsOutbox r h)

  -- However claims, completions, reports and status changes interleave, from an empty outbox: each
  -- logical delivery has at most one attempt that is PENDING, SENT or SKIPPED, so it is sent at
  -- most once, and it has at most `max_attempts` attempts.
  pub Reach_sent_once :
      (m m' : Monitoring) (k : String)
      → m.deliveries ≡ []
      → Reach m m'
      → (count (is_live_for k) m'.deliveries ≤ 1)
        × (count (has_key k) m'.deliveries ≤ config.max_attempts)
  Reach_sent_once m m' k empty r =
      let start : IsOutbox config.max_attempts m.deliveries =
        rw empty (record { ledger = tt; bounded = tt }) in
      let outbox = Reach-IsOutbox r start in
      (
        one_live k m'.deliveries outbox.ledger,
        few_attempts config.max_attempts k m'.deliveries outbox.ledger outbox.bounded,
      )
