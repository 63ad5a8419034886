-- ===== src/Delivery/Accounting.antt =====
-- What a run of `deliver_due` of src/quality/delivery.py reports and leaves behind.
use pulse_data_platform.Base.{
  ℕ, suc, ◌+◌, ◌≡◌, refl, ◌∙◌, String, Bool, false, Option, none, some, List, [], ◌∷◌, arith,
  length, count, update, ok, >>=-eq-ok,
}
use pulse_data_platform.Alerts.Rows.{Uuid, Json}
use pulse_data_platform.Delivery.Rows.{
  Delivery, FinalStatus, sent, failed, skipped, Monitoring, DeliveryCandidate, DeliveryResult,
  Provider, logical_key, latest_attempt, has_key, is_pending,
}
use pulse_data_platform.Delivery.Settings.{DeliveryConfig}
use pulse_data_platform.Delivery.Candidates.{discover_candidates}
use pulse_data_platform.Delivery.Claiming.{claim, claimed_row, next_attempt}
use pulse_data_platform.Delivery.Attempts.{
  complete, complete-Completed, completed_row, is_pending_with, context, result_of, send_claimed,
  attempt,
}
use pulse_data_platform.Delivery.Settled.{
  is_settled_as, reported, zero_run, nothing_reported, tallied-reported, attempt_settled,
}
use pulse_data_platform.Delivery.Running.{RunSummary, tallied, deliver_each, deliver_due}

abbrev pub is_waiting : Delivery → Bool
is_waiting d = is_pending d.delivery_status

completed_waiting :
    (details : Json) (id : Uuid) (r : DeliveryResult) (at : ℕ) (ds : List Delivery)
    → count is_waiting (update (is_pending_with id) (completed_row details r at) ds)
        + count (is_pending_with id) ds
      ≡ count is_waiting ds
unfolding completed_row
completed_waiting details id r at [] = refl
completed_waiting details id r at (d ∷ ds) = ground (arith, completed_waiting details id r at ds)

complete_waiting :
    (encode : List (String × Json) → Option Json) (id : Uuid) (r : DeliveryResult) (at : ℕ)
    (m m' : Monitoring)
    → complete encode id r at m ≡ ok m'
    → count is_waiting m'.deliveries + 1 ≡ count is_waiting m.deliveries
complete_waiting encode id r at m m' h =
    let done = complete-Completed encode id r at m m' h in
    rw done.written (omega (arith, completed_waiting done.details id r at m.deliveries, done.alone))

module _ (digest : List Json → String) (uuid5 : String → ℕ → Uuid)
    (encode : List (String × Json) → Option Json) (config : DeliveryConfig) (provider : Provider)
    (now : ℕ) where
  claim_waiting :
      (c : DeliveryCandidate) (force : Bool) (m : Monitoring) (id : Uuid) (n : ℕ) (m' : Monitoring)
      → claim digest uuid5 c config now force m ≡ some (id, n, m')
      → count is_waiting m'.deliveries ≡ count is_waiting m.deliveries + 1
  unfolding claim claimed_row
  claim_waiting c force m id n m' h =
      let k = logical_key digest c in
      let previous = latest_attempt (has_key k) m.deliveries in
      let made : m'.deliveries
          ≡ claimed_row (uuid5 k (next_attempt previous)) c k (next_attempt previous) now
            ∷ m.deliveries =
        ground arith in
      rw made (omega arith)

  send_claimed_waiting :
      (c : DeliveryCandidate) (o : Option (Uuid × ℕ × Monitoring)) (m : Monitoring)
      (status : Option FinalStatus) (m' : Monitoring)
      → ((id : Uuid) (n : ℕ) (x : Monitoring)
          → o ≡ some (id, n, x)
          → count is_waiting x.deliveries ≡ count is_waiting m.deliveries + 1)
      → send_claimed digest uuid5 encode c provider now o m ≡ ok (status, m')
      → count is_waiting m'.deliveries ≡ count is_waiting m.deliveries
  unfolding send_claimed
  send_claimed_waiting c none m status m' claimed h = ground arith
  send_claimed_waiting c (some (id, n, x)) m status m' claimed h =
      let r = result_of (provider.send c.alert (context c (logical_key digest c) n now)) in
      let (done, completed, rest) = >>=-eq-ok (complete encode id r now x) _ h in
      ground (arith, complete_waiting encode id r now x done completed, claimed id n x refl)

  attempt_waiting :
      (c : DeliveryCandidate) (force : Bool) (m : Monitoring) (status : Option FinalStatus)
      (m' : Monitoring)
      → attempt digest uuid5 encode c config provider now force m ≡ ok (status, m')
      → count is_waiting m'.deliveries ≡ count is_waiting m.deliveries
  attempt_waiting c force m status m' h =
      send_claimed_waiting c (claim digest uuid5 c config now force m) m status m'
        (claim_waiting c force m) (unfold attempt in h)

  -- The loop accounts for every candidate once.
  abbrev pub Accounts : ℕ → RunSummary → RunSummary → Type 0
  Accounts n r r' =
      (r'.attempted + r'.deferred ≡ r.attempted + r.deferred + n)
      × (r'.sent_count + r'.failed_count + r'.skipped_count + r.attempted
          ≡ r.sent_count + r.failed_count + r.skipped_count + r'.attempted)
      × (r'.candidates ≡ r.candidates)

  tallied-Accounts :
      (status : Option FinalStatus) (n : ℕ) (r r' : RunSummary)
      → Accounts n (tallied status r) r'
      → Accounts (suc n) r r'
  unfolding tallied
  tallied-Accounts none n r r' h = omega arith
  tallied-Accounts (some sent) n r r' h = omega arith
  tallied-Accounts (some failed) n r r' h = omega arith
  tallied-Accounts (some skipped) n r r' h = omega arith

  deliver_each-Accounts :
      (cs : List DeliveryCandidate) (r : RunSummary) (m : Monitoring) (r' : RunSummary)
      (m' : Monitoring)
      → deliver_each digest uuid5 encode config provider now cs r m ≡ ok (r', m')
      → Accounts (length cs) r r'
        × (count is_waiting m'.deliveries ≡ count is_waiting m.deliveries)
        × ((q : FinalStatus)
            → count (is_settled_as q) m'.deliveries + reported q r
              ≡ count (is_settled_as q) m.deliveries + reported q r')
  unfolding deliver_each
  deliver_each-Accounts [] r m r' m' h =
      let left : m ≡ m' = ground arith in
      let same : r ≡ r' = ground arith in (ground arith, ground arith, λ q. rw⁻¹ (left, same) refl)
  deliver_each-Accounts (c ∷ cs) r m r' m' h =
      let ((status, x), tried, rest) =
        >>=-eq-ok (attempt digest uuid5 encode c config provider now false m) _ h in
      let (accounts, waiting, settled) = deliver_each-Accounts cs (tallied status r) x r' m' rest in
      (
        tallied-Accounts status (length cs) r r' accounts,
        waiting ∙ attempt_waiting c false m status x tried,
        λ q. omega (
          arith,
          settled q,
          tallied-reported q status r,
          attempt_settled digest uuid5 encode config provider now q c false m status x tried,
        ),
      )

  -- A run that returns counts each candidate once, as attempted or deferred, and each attempt once,
  -- as sent, failed or skipped; it leaves as many PENDING rows as it found, so every attempt that it
  -- began is completed; and it adds as many SENT, FAILED and SKIPPED rows as it reports of each.
  pub deliver_due_accounts :
      (limit : ℕ) (m : Monitoring) (r : RunSummary) (m' : Monitoring)
      → deliver_due digest uuid5 encode config provider now limit m ≡ ok (r, m')
      → (r.candidates ≡ r.attempted + r.deferred)
        × (r.candidates ≡ length (discover_candidates config now limit m))
        × (r.attempted ≡ r.sent_count + r.failed_count + r.skipped_count)
        × (count is_waiting m'.deliveries ≡ count is_waiting m.deliveries)
        × ((q : FinalStatus)
            → count (is_settled_as q) m'.deliveries
              ≡ count (is_settled_as q) m.deliveries + reported q r)
  unfolding deliver_due
  deliver_due_accounts limit m r m' h =
      let start = zero_run (length (discover_candidates config now limit m)) in
      let ((sums, parts, same), waiting, settled) =
        deliver_each-Accounts (discover_candidates config now limit m) start m r m'
          (ground arith) in
      (
        omega arith,
        same,
        omega arith,
        waiting,
        λ q. omega (
          arith,
          settled q,
          nothing_reported q (length (discover_candidates config now limit m)),
        ),
      )
