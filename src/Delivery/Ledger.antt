-- ===== src/Delivery/Ledger.antt =====
-- The outbox as a ledger: what monitoring.alert_deliveries holds of one logical delivery after any
-- calls of `_claim` and `_complete` of src/quality/delivery.py, in any interleaving.
use pulse_data_platform.Base.{
  All-Unit, subst, eq_refl, leb, ℕ, ◌+◌, ◌≤◌, ◌≡◌, refl, ◌∙◌, String, Bool, true, false, Option,
  none, some, List, [], ◌∷◌, inl, inr, arith, Bool-cases, count, update, All, All-update,
  count-update, count-update-le, ok, str_eq, eq_iff, if◌then◌else◌,
}
use pulse_data_platform.Alerts.Rows.{Uuid, Json}
use pulse_data_platform.Delivery.Rows.{
  Delivery, Monitoring, DeliveryCandidate, DeliveryResult, latest_attempt, logical_key, has_key,
  is_failed, later_attempt,
}
use pulse_data_platform.Delivery.Settings.{DeliveryConfig}
use pulse_data_platform.Delivery.Claiming.{claim, claimed_row, next_attempt, is_free}
use pulse_data_platform.Delivery.Attempts.{
  complete, complete-Completed, completed_row, is_pending_with,
}

-- A row of the key that stands in the way of another attempt: PENDING, SENT or SKIPPED.
abbrev pub is_live_for : String → Delivery → Bool
is_live_for k d = if is_failed d.delivery_status then false else str_eq d.logical_delivery_key k

-- Each attempt is numbered after those of its key before it, and all of these failed.
abbrev pub IsLedger : List Delivery → Type 0
IsLedger [] = Unit
IsLedger (d ∷ ds) =
    (d.attempt_number ≡ count (has_key d.logical_delivery_key) ds + 1)
    × (count (is_live_for d.logical_delivery_key) ds ≡ 0)
    × IsLedger ds

-- In a ledger the latest attempt of a key has the number of attempts, and stands alone in the way
-- of another.
abbrev IsLatest : String → List Delivery → Option Delivery → Type 0
IsLatest k ds none = (count (has_key k) ds ≡ 0) × (count (is_live_for k) ds ≡ 0)
IsLatest k ds (some d) =
    (d.logical_delivery_key ≡ k)
    × (d.attempt_number ≡ count (has_key k) ds)
    × (count (is_live_for k) ds ≡ (if is_failed d.delivery_status then 0 else 1))

IsLatest-newest :
    (d : Delivery) (ds : List Delivery) (o : Option Delivery)
    → d.attempt_number ≡ count (has_key d.logical_delivery_key) ds + 1
    → count (is_live_for d.logical_delivery_key) ds ≡ 0
    → IsLatest d.logical_delivery_key ds o
    → IsLatest d.logical_delivery_key (d ∷ ds) (later_attempt d o)
IsLatest-newest d ds none hn hl h =
    rw (eq_refl d.logical_delivery_key) (refl, omega arith, ground arith)
IsLatest-newest d ds (some x) hn hl h =
    let newer : leb x.attempt_number d.attempt_number ≡ true = ground arith in
    rw newer (rw (eq_refl d.logical_delivery_key) (refl, omega arith, ground arith))

IsLatest-other :
    (k : String) (d : Delivery) (ds : List Delivery) (o : Option Delivery)
    → has_key k d ≡ false
    → IsLatest k ds o
    → IsLatest k (d ∷ ds) o
IsLatest-other k d ds none other h = (ground arith, ground arith)
IsLatest-other k d ds (some x) other h = (h.0, ground arith, ground arith)

latest_attempt-IsLatest :
    (k : String) (ds : List Delivery) → IsLedger ds → IsLatest k ds (latest_attempt (has_key k) ds)
unfolding latest_attempt
latest_attempt-IsLatest k [] h = (refl, refl)
latest_attempt-IsLatest k (d ∷ ds) h = elim (Bool-cases (has_key k d)) [
  | inl this ↦ rw this (
      subst (λ j. IsLatest j (d ∷ ds) (later_attempt d (latest_attempt (has_key j) ds)))
        ((eq_iff d.logical_delivery_key k).0 this)
        (IsLatest-newest d ds (latest_attempt (has_key d.logical_delivery_key) ds) h.0 h.1
          (latest_attempt-IsLatest d.logical_delivery_key ds h.2)))
  | inr other ↦ rw other (
      IsLatest-other k d ds (latest_attempt (has_key k) ds) other
        (latest_attempt-IsLatest k ds h.2))
]

-- A key whose latest attempt lets another one follow has no live row.
free-no_live :
    (config : DeliveryConfig) (now : ℕ) (force : Bool) (k : String) (ds : List Delivery)
    (o : Option Delivery)
    → is_free config now force o ≡ true
    → IsLatest k ds o
    → (count (is_live_for k) ds ≡ 0) × (next_attempt o ≡ count (has_key k) ds + 1)
free-no_live config now force k ds none free h = (h.1, omega arith)
free-no_live config now force k ds (some d) free h = (ground arith, ground arith)

-- The invariant of the outbox: a ledger, with at most `limit` attempts for each key.
pub record IsOutbox (limit : ℕ) (ds : List Delivery) : Type 0 where
  pub ledger : IsLedger ds
  pub bounded : All (λ d. d.attempt_number ≤ limit) ds

module _ (digest : List Json → String) (uuid5 : String → ℕ → Uuid) where
  pub claim-IsOutbox :
      (c : DeliveryCandidate) (config : DeliveryConfig) (now : ℕ) (force : Bool) (m : Monitoring)
      (id : Uuid) (n : ℕ) (m' : Monitoring)
      → IsOutbox config.max_attempts m.deliveries
      → claim digest uuid5 c config now force m ≡ some (id, n, m')
      → IsOutbox config.max_attempts m'.deliveries
  unfolding claim claimed_row
  claim-IsOutbox c config now force m id n m' h e =
      let k = logical_key digest c in
      let previous = latest_attempt (has_key k) m.deliveries in
      let (no_live, number) =
        free-no_live config now force k m.deliveries previous (ground arith)
          (latest_attempt-IsLatest k m.deliveries h.ledger) in
      let made : m'.deliveries
          ≡ claimed_row (uuid5 k (next_attempt previous)) c k (next_attempt previous) now
            ∷ m.deliveries =
        ground arith in
      rw made (record { ledger = (number, no_live, h.ledger); bounded = (ground arith, h.bounded) })

module _ (details : Json) (id : Uuid) (r : DeliveryResult) (at : ℕ) where
  completed : List Delivery → List Delivery
  completed = update (is_pending_with id) (completed_row details r at)

  completed_keys :
      (k : String) (ds : List Delivery) → count (has_key k) (completed ds) ≡ count (has_key k) ds
  unfolding completed completed_row
  completed_keys k ds =
      count-update (has_key k) (is_pending_with id) (completed_row details r at) (λ d _. refl) ds

  completed_live :
      (k : String) (ds : List Delivery)
      → count (is_live_for k) (completed ds) ≤ count (is_live_for k) ds
  unfolding completed completed_row
  completed_live k ds =
      count-update-le (λ d. Unit {0}) (is_live_for k) (is_pending_with id)
        (completed_row details r at) (λ d _ waiting live. ground arith) ds (All-Unit ds)

  completed-IsLedger : (ds : List Delivery) → IsLedger ds → IsLedger (completed ds)
  unfolding completed completed_row
  completed-IsLedger [] h = tt
  completed-IsLedger (d ∷ ds) h = elim (Bool-cases (is_pending_with id d)) [
    | inl waiting ↦ rw waiting (
      h.0 ∙ omega (arith, completed_keys d.logical_delivery_key ds),
      omega (arith, completed_live d.logical_delivery_key ds, h.1),
      completed-IsLedger ds h.2,
    )
    | inr other ↦ rw other (
      h.0 ∙ omega (arith, completed_keys d.logical_delivery_key ds),
      omega (arith, completed_live d.logical_delivery_key ds, h.1),
      completed-IsLedger ds h.2,
    )
  ]

  completed_bounded :
      (limit : ℕ) (ds : List Delivery)
      → All (λ d. d.attempt_number ≤ limit) ds
      → All (λ d. d.attempt_number ≤ limit) (completed ds)
  unfolding completed completed_row
  completed_bounded limit ds h =
      All-update (λ d. d.attempt_number ≤ limit) (λ d. d.attempt_number ≤ limit)
        (is_pending_with id) (completed_row details r at) (λ d b _. b) (λ d b _. b) ds h

pub complete-IsOutbox :
    (encode : List (String × Json) → Option Json) (limit : ℕ) (id : Uuid) (r : DeliveryResult)
    (at : ℕ) (m m' : Monitoring)
    → IsOutbox limit m.deliveries
    → complete encode id r at m ≡ ok m'
    → IsOutbox limit m'.deliveries
complete-IsOutbox encode limit id r at m m' h e =
    let done = complete-Completed encode id r at m m' e in
    rw done.written (
      unfold completed in
      record {
        ledger = completed-IsLedger done.details id r at m.deliveries h.ledger;
        bounded = completed_bounded done.details id r at limit m.deliveries h.bounded;
      })

-- In an outbox at most one attempt of a key is PENDING, SENT or SKIPPED.
pub one_live : (k : String) (ds : List Delivery) → IsLedger ds → count (is_live_for k) ds ≤ 1
one_live k [] h = omega arith
one_live k (d ∷ ds) h = elim (Bool-cases (has_key k d)) [
  | inl this ↦
      let none_live : count (is_live_for k) ds ≡ 0 =
        subst (λ j. count (is_live_for j) ds ≡ 0) ((eq_iff d.logical_delivery_key k).0 this) h.1 in
      ground arith
  | inr other ↦ ground (arith, one_live k ds h.2)
]

pub few_attempts :
    (limit : ℕ) (k : String) (ds : List Delivery)
    → IsLedger ds
    → All (λ d. d.attempt_number ≤ limit) ds
    → count (has_key k) ds ≤ limit
few_attempts limit k [] h b = omega arith
few_attempts limit k (d ∷ ds) h b = elim (Bool-cases (has_key k d)) [
  | inl this ↦
      let number : d.attempt_number ≡ count (has_key k) ds + 1 =
        subst (λ j. d.attempt_number ≡ count (has_key j) ds + 1)
          ((eq_iff d.logical_delivery_key k).0 this) h.0 in
      ground arith
  | inr other ↦ ground (arith, few_attempts limit k ds h.2 b.1)
]
