-- ===== src/Delivery/Promptness.antt =====
-- That `_claim` of src/quality/delivery.py takes what `_discover_candidates` finds: its tests of the
-- alert and of the latest attempt agree with the query's.
use pulse_data_platform.Base.{
  ℕ, ◌≤◌, find, ltb, Option, none, some, All-map, ◌≡◌, refl, String, true, false, List, [], ◌∷◌,
  arith, All, All-append, All-if,
}
use pulse_data_platform.Alerts.Rows.{Uuid, Json, AlertEvent, is_active, has_id}
use pulse_data_platform.Delivery.Rows.{
  Monitoring, Delivery, DeliveryKind, DeliveryCandidate, initial, recurrence, escalation,
  logical_key, latest_attempt, has_key, notification,
}
use pulse_data_platform.Delivery.Settings.{DeliveryConfig}
use pulse_data_platform.Delivery.Candidates.{
  is_still_due, initial_due, recurrence_due, escalation_due, candidate, row_candidates, joined,
  is_awaited,
}
use pulse_data_platform.Delivery.Columns.{
  is_attempt_of, latest_attempt-eq, IsKeyed, IsKeyed-has_key,
}
use pulse_data_platform.Delivery.Claiming.{claimed_row, claim, is_alert_due, is_free, next_attempt}

-- The recheck of a claim, on the row that the query read.
module _ (config : DeliveryConfig) (now : ℕ) (ds : List Delivery) where
  initial_still_due :
      (e : AlertEvent)
      → initial_due config now ds e ≡ true
      → is_still_due (candidate config now ds initial 1 0 e) e config now ≡ true
  unfolding initial_due is_still_due candidate
  initial_still_due e h = ground arith

  recurrence_still_due :
      (e : AlertEvent)
      → is_active e.status ≡ true
      → recurrence_due config now ds e ≡ true
      → is_still_due
          (candidate config now ds recurrence config.recurrence_threshold 0 e)
          e
          config
          now
        ≡ true
  unfolding recurrence_due is_still_due candidate is_active
  recurrence_still_due e a h = ground arith

  escalation_still_due :
      (e : AlertEvent)
      → escalation_due config now ds e ≡ true
      → is_still_due (candidate config now ds escalation 1 1 e) e config now ≡ true
  unfolding escalation_due is_still_due candidate
  escalation_still_due e h = ground arith

  row_candidates-All :
      (P : DeliveryCandidate → Type 0) (e : AlertEvent)
      → (initial_due config now ds e ≡ true → P (candidate config now ds initial 1 0 e))
      → (recurrence_due config now ds e ≡ true
          → P (candidate config now ds recurrence config.recurrence_threshold 0 e))
      → (escalation_due config now ds e ≡ true → P (candidate config now ds escalation 1 1 e))
      → All P (row_candidates config now ds e)
  unfolding row_candidates
  row_candidates-All P e first again raise =
      All-append P _ _ (All-if P _ _ first)
        (All-append P _ _ (All-if P _ _ again) (All-if P _ _ (λ h. raise (ground arith))))

  -- What the query has tested of a candidate, read through its columns.
  abbrev IsFound : AlertEvent → DeliveryCandidate → Type 0
  IsFound e c =
      (is_still_due c e config now ≡ true)
      × (is_awaited config now (latest_attempt (is_attempt_of c) ds) ≡ true)
      × (c.alert.alert_event_id ≡ e.alert_event_id)

  initial_awaited :
      (e : AlertEvent)
      → initial_due config now ds e ≡ true
      → is_awaited config now
          (latest_attempt (is_attempt_of (candidate config now ds initial 1 0 e)) ds)
        ≡ true
  unfolding initial_due joined candidate notification
  initial_awaited e h = ground arith

  recurrence_awaited :
      (e : AlertEvent)
      → recurrence_due config now ds e ≡ true
      → is_awaited config now (
          latest_attempt
            (is_attempt_of (candidate config now ds recurrence config.recurrence_threshold 0 e))
            ds)
        ≡ true
  unfolding recurrence_due joined candidate notification
  recurrence_awaited e h = ground arith

  escalation_awaited :
      (e : AlertEvent)
      → escalation_due config now ds e ≡ true
      → is_awaited config now
          (latest_attempt (is_attempt_of (candidate config now ds escalation 1 1 e)) ds)
        ≡ true
  unfolding escalation_due joined candidate notification
  escalation_awaited e h = ground arith

  candidate_about :
      (kind : DeliveryKind) (version level : ℕ) (e : AlertEvent)
      → (candidate config now ds kind version level e).alert.alert_event_id ≡ e.alert_event_id
  unfolding candidate notification
  candidate_about kind version level e = refl

  row_candidates-IsFound :
      (e : AlertEvent)
      → is_active e.status ≡ true
      → All (IsFound e) (row_candidates config now ds e)
  row_candidates-IsFound e a =
      row_candidates-All (IsFound e) e
        (λ h. (initial_still_due e h, initial_awaited e h, candidate_about initial 1 0 e))
        (λ h. (
          recurrence_still_due e a h,
          recurrence_awaited e h,
          candidate_about recurrence config.recurrence_threshold 0 e,
        ))
        (λ h. (escalation_still_due e h, escalation_awaited e h, candidate_about escalation 1 1 e))

-- What the query asks of the latest attempt is what the claim asks of it, unforced.
awaited-free :
    (config : DeliveryConfig) (now : ℕ) (o : Option Delivery)
    → 1 ≤ config.max_attempts
    → is_awaited config now o ≡ true
    → (is_free config now false o ≡ true) × (ltb config.max_attempts (next_attempt o) ≡ false)
awaited-free config now none some_attempts h = (refl, ground arith)
awaited-free config now (some d) some_attempts h = (ground arith, ground arith)

module _ (digest : List Json → String) (uuid5 : String → ℕ → Uuid) (config : DeliveryConfig)
    (now : ℕ) (m : Monitoring) where
  abbrev pub IsClaimed : DeliveryCandidate → Type 0
  IsClaimed c =
      (id : Uuid) × (n : ℕ) × (x : Monitoring) × (claim digest uuid5 c config now false m
        ≡ some (id, n, x))

  IsFound-IsClaimed :
      (e : AlertEvent) (c : DeliveryCandidate)
      → 1 ≤ config.max_attempts
      → find (has_id e.alert_event_id) m.events ≡ some e
      → All (IsKeyed digest c) m.deliveries
      → IsFound config now m.deliveries e c
      → IsClaimed c
  unfolding claim
  IsFound-IsClaimed e c some_attempts present keyed found =
      let key = logical_key digest c in
      let same = latest_attempt-eq (has_key key) (is_attempt_of c) m.deliveries (
        All-map (IsKeyed digest c) (λ d. has_key key d ≡ is_attempt_of c d)
          (IsKeyed-has_key digest c) m.deliveries keyed) in
      let previous = latest_attempt (has_key key) m.deliveries in
      let (free, room) = awaited-free config now previous some_attempts (rw same found.1) in
      let seen : find (has_id c.alert.alert_event_id) m.events ≡ some e = rw found.2 present in
      let due : is_alert_due c (find (has_id c.alert.alert_event_id) m.events) config now ≡ true =
        rw seen found.0 in
      let attempt = next_attempt previous in
      (
        uuid5 key attempt,
        attempt,
        record m { deliveries = claimed_row (uuid5 key attempt) c key attempt now ∷ m.deliveries },
        rw (due, free, room) refl,
      )

  All-IsClaimed :
      (e : AlertEvent) (cs : List DeliveryCandidate)
      → 1 ≤ config.max_attempts
      → find (has_id e.alert_event_id) m.events ≡ some e
      → All (λ c. All (IsKeyed digest c) m.deliveries) cs
      → All (IsFound config now m.deliveries e) cs
      → All IsClaimed cs
  All-IsClaimed e [] some_attempts present keyed found = tt
  All-IsClaimed e (c ∷ cs) some_attempts present keyed found = (
    IsFound-IsClaimed e c some_attempts present keyed.0 found.0,
    All-IsClaimed e cs some_attempts present keyed.1 found.1,
  )

  -- Every candidate that the query yields for an active alert is claimed, unforced, on the tables
  -- that the query read, so it can be deferred only for what changed after. At least one attempt is
  -- configured, and each row of the outbox carries the key of its columns, which does not collide
  -- with the key of a candidate of other columns.
  pub row_candidates-IsClaimed :
      (e : AlertEvent)
      → 1 ≤ config.max_attempts
      → find (has_id e.alert_event_id) m.events ≡ some e
      → is_active e.status ≡ true
      → All (λ c. All (IsKeyed digest c) m.deliveries) (row_candidates config now m.deliveries e)
      → All IsClaimed (row_candidates config now m.deliveries e)
  row_candidates-IsClaimed e some_attempts present active keyed =
      All-IsClaimed e (row_candidates config now m.deliveries e) some_attempts present keyed
        (row_candidates-IsFound config now m.deliveries e active)
