-- ===== src/Delivery/Settled.antt =====
-- How many rows of each final status `_attempt` of src/quality/delivery.py adds.
use pulse_data_platform.Base.{
  if◌then◌else◌, ℕ, ◌+◌, ◌≡◌, refl, ◌∙◌, String, Bool, true, false, Option, none, some, List, [],
  ◌∷◌, arith, count, update, ok, >>=-eq-ok,
}
use pulse_data_platform.Alerts.Rows.{Uuid, Json}
use pulse_data_platform.Delivery.Rows.{
  DeliveryStatus, pending, final, Delivery, FinalStatus, sent, failed, skipped, Monitoring,
  DeliveryCandidate, DeliveryResult, Provider, logical_key, latest_attempt, has_key, is_pending,
}
use pulse_data_platform.Delivery.Settings.{DeliveryConfig}
use pulse_data_platform.Delivery.Claiming.{claim, claimed_row, next_attempt}
use pulse_data_platform.Delivery.Attempts.{
  complete, complete-Completed, completed_row, is_pending_with, context, result_of, send_claimed,
  attempt,
}
use pulse_data_platform.Delivery.Running.{RunSummary, tallied}

abbrev same_final : FinalStatus → FinalStatus → Bool
same_final sent sent = true
same_final failed failed = true
same_final skipped skipped = true
same_final _ _ = false

abbrev settles : FinalStatus → DeliveryStatus → Bool
settles q pending = false
settles q (final f) = same_final q f

-- The row is completed with this status.
abbrev pub is_settled_as : FinalStatus → Delivery → Bool
is_settled_as q d = settles q d.delivery_status

-- What a run reports of a status.
abbrev pub reported : FinalStatus → RunSummary → ℕ
reported sent r = r.sent_count
reported failed r = r.failed_count
reported skipped r = r.skipped_count

abbrev pub tally : FinalStatus → Option FinalStatus → ℕ
tally q none = 0
tally q (some f) = if same_final q f then 1 else 0

-- The summary that a run starts with.
abbrev pub zero_run : ℕ → RunSummary
zero_run n = record {
  candidates = n;
  attempted = 0;
  sent_count = 0;
  failed_count = 0;
  skipped_count = 0;
  deferred = 0;
}

pub nothing_reported : (q : FinalStatus) (n : ℕ) → reported q (zero_run n) ≡ 0
nothing_reported sent n = refl
nothing_reported failed n = refl
nothing_reported skipped n = refl

pending-settles : (q : FinalStatus) (t : DeliveryStatus) → is_pending t ≡ true → settles q t ≡ false
pending-settles q pending h = refl
pending-settles q (final f) h = absurd (cc)

pub tallied-reported :
    (q : FinalStatus) (status : Option FinalStatus) (r : RunSummary)
    → reported q (tallied status r) ≡ reported q r + tally q status
unfolding tallied
tallied-reported sent none r = omega arith
tallied-reported failed none r = omega arith
tallied-reported skipped none r = omega arith
tallied-reported sent (some sent) r = refl
tallied-reported sent (some failed) r = omega arith
tallied-reported sent (some skipped) r = omega arith
tallied-reported failed (some sent) r = omega arith
tallied-reported failed (some failed) r = refl
tallied-reported failed (some skipped) r = omega arith
tallied-reported skipped (some sent) r = omega arith
tallied-reported skipped (some failed) r = omega arith
tallied-reported skipped (some skipped) r = refl

completed_settled :
    (q : FinalStatus) (details : Json) (id : Uuid) (r : DeliveryResult) (at : ℕ)
    (ds : List Delivery)
    → count (is_settled_as q) (update (is_pending_with id) (completed_row details r at) ds)
      ≡ count (is_settled_as q) ds
        + (if same_final q r.status then count (is_pending_with id) ds else 0)
unfolding completed_row
completed_settled q details id r at [] = ground arith
completed_settled q details id r at (d ∷ ds) =
    ground (arith, completed_settled q details id r at ds, pending-settles q d.delivery_status)

complete_settled :
    (encode : List (String × Json) → Option Json) (q : FinalStatus) (id : Uuid) (r : DeliveryResult)
    (at : ℕ) (m m' : Monitoring)
    → complete encode id r at m ≡ ok m'
    → count (is_settled_as q) m'.deliveries
      ≡ count (is_settled_as q) m.deliveries + tally q (some r.status)
complete_settled encode q id r at m m' h =
    let done = complete-Completed encode id r at m m' h in
    rw done.written (completed_settled q done.details id r at m.deliveries ∙ rw done.alone refl)

module _ (digest : List Json → String) (uuid5 : String → ℕ → Uuid)
    (encode : List (String × Json) → Option Json) (config : DeliveryConfig) (provider : Provider)
    (now : ℕ) where
  claim_settled :
      (q : FinalStatus) (c : DeliveryCandidate) (force : Bool) (m : Monitoring) (id : Uuid) (n : ℕ)
      (m' : Monitoring)
      → claim digest uuid5 c config now force m ≡ some (id, n, m')
      → count (is_settled_as q) m'.deliveries ≡ count (is_settled_as q) m.deliveries
  unfolding claim claimed_row
  claim_settled q c force m id n m' h =
      let k = logical_key digest c in
      let previous = latest_attempt (has_key k) m.deliveries in
      let made : m'.deliveries
          ≡ claimed_row (uuid5 k (next_attempt previous)) c k (next_attempt previous) now
            ∷ m.deliveries =
        ground arith in
      rw made (omega arith)

  send_claimed_settled :
      (q : FinalStatus) (c : DeliveryCandidate) (o : Option (Uuid × ℕ × Monitoring))
      (m : Monitoring) (status : Option FinalStatus) (m' : Monitoring)
      → ((id : Uuid) (n : ℕ) (x : Monitoring)
          → o ≡ some (id, n, x)
          → count (is_settled_as q) x.deliveries ≡ count (is_settled_as q) m.deliveries)
      → send_claimed digest uuid5 encode c provider now o m ≡ ok (status, m')
      → count (is_settled_as q) m'.deliveries
        ≡ count (is_settled_as q) m.deliveries + tally q status
  unfolding send_claimed
  send_claimed_settled q c none m status m' claimed h =
      let same : m ≡ m' = ground arith in
      let status_none : none ≡ status = ground arith in rw⁻¹ (same, status_none) (omega arith)
  send_claimed_settled q c (some (id, n, x)) m status m' claimed h =
      let r = result_of (provider.send c.alert (context c (logical_key digest c) n now)) in
      let (done, completed, rest) = >>=-eq-ok (complete encode id r now x) _ h in
      let same : done ≡ m' = ground arith in
      let status_some : some r.status ≡ status = ground arith in
      rw⁻¹ (same, status_some)
        (complete_settled encode q id r now x done completed ∙ rw (claimed id n x refl) refl)

  pub attempt_settled :
      (q : FinalStatus) (c : DeliveryCandidate) (force : Bool) (m : Monitoring)
      (status : Option FinalStatus) (m' : Monitoring)
      → attempt digest uuid5 encode c config provider now force m ≡ ok (status, m')
      → count (is_settled_as q) m'.deliveries
        ≡ count (is_settled_as q) m.deliveries + tally q status
  attempt_settled q c force m status m' h =
      send_claimed_settled q c (claim digest uuid5 c config now force m) m status m'
        (claim_settled q c force m) (unfold attempt in h)
