-- ===== src/Quality/Turns.antt =====
-- The loop over the results in `persist_quality_run` of src/quality/persistence.py.
use pulse_data_platform.Base.{
  ℕ, suc, ◌≤◌, ◌<◌, ◌≡◌, String, true, false, ◌⊎◌, inl, inr, List, [], ◌∷◌, arith, All, count,
  Bool-cases, ok, >>=-eq-ok, Outcome,
}
use pulse_data_platform.Alerts.Rows.{Uuid, Json, Execution, Store, has_id, has_occurrence_id}
use pulse_data_platform.Alerts.Identity.{AlertError}
use pulse_data_platform.Alerts.Recording.{Observation, record_alert}
use pulse_data_platform.Alerts.Invariant.{IsValid}
use pulse_data_platform.Alerts.Validity.{record_alert-IsValid}
use pulse_data_platform.Quality.Results.{CheckDetails, QualityResult, is_critical_failure}
use pulse_data_platform.Quality.Runs.{DatasetQualityRun}
use pulse_data_platform.Quality.Persisting.{occurrence, failure_report, record_failure, record_each}
use pulse_data_platform.Quality.Alerting.{
  record_alert_unused, record_alert_receipts, record_alert_receipt,
}

-- Identities that `uuid4` gives one after the other, from the call `n` on: no alert has them.
abbrev pub IsUnused : (ℕ → Uuid) → ℕ → Store → Type 0
IsUnused fresh n s = (j : ℕ) → n ≤ j → count (has_id (fresh j)) s.events ≡ 0

module _ {V : Type 0} (encode : V → Json) (encode_details : CheckDetails V → Json)
    (uuid5 : List Json → Uuid) (check_id : Uuid → String → Uuid) (digest : List Json → String)
    (c : Execution) (fresh now : ℕ → ℕ) (run : DatasetQualityRun V) where
  abbrev pub reported : QualityResult V → Observation
  reported r = failure_report encode encode_details uuid5 check_id digest c run r

  abbrev pub occurs : QualityResult V → Uuid
  occurs r = occurrence encode encode_details uuid5 check_id digest c run r

  abbrev turn : ℕ → QualityResult V → Store → Outcome AlertError (ℕ × Store)
  turn n r s = record_failure encode encode_details uuid5 check_id digest c fresh now run n r s

  abbrev pub loop : ℕ → List (QualityResult V) → Store → Outcome AlertError Store
  loop n rs s = record_each encode encode_details uuid5 check_id digest c fresh now run n rs s

  -- The two ways of a turn.
  turn_ways :
      (n k : ℕ) (r : QualityResult V) (s t : Store)
      → turn n r s ≡ ok (k, t)
      → ((is_critical_failure r ≡ false) × (k ≡ n) × (t ≡ s))
        ⊎ ((i : Uuid) × (k ≡ suc n)
            × (record_alert digest (fresh n) (now n) (reported r) s ≡ ok (i, t)))
  unfolding record_failure
  turn_ways n k r s t h = elim (Bool-cases (is_critical_failure r)) [
    | inl failed ↦
        let ((i, u), called, rest) =
          >>=-eq-ok (record_alert digest (fresh n) (now n) (reported r) s) _ (rw failed at h) in
        inr (i, ground arith, rw called (ground arith))
    | inr other ↦ inl (other, ground arith, ground arith)
  ]

  loop-receipts :
      (n : ℕ) (rs : List (QualityResult V)) (s t : Store)
      → loop n rs s ≡ ok t
      → (j : Uuid)
      → count (has_occurrence_id j) s.occurrences ≤ count (has_occurrence_id j) t.occurrences
  unfolding record_each
  loop-receipts n [] s t h j = let same : s ≡ t = ground arith in rw same (omega arith)
  loop-receipts n (r ∷ rs) s t h j =
      let ((k, u), step, rest) = >>=-eq-ok (turn n r s) _ h in
      let after = loop-receipts k rs u t rest j in
      elim (turn_ways n k r s u step) [
        | inl (other, kept, same) ↦ rw same at after
        | inr (i, next, called) ↦ omega (
          arith,
          after,
          record_alert_receipts digest (fresh n) (now n) (reported r) s i u called j,
        )
      ]

  -- The receipt of each critical failure is written, and stays.
  pub loop_receipt :
      (n : ℕ) (rs : List (QualityResult V)) (s t : Store)
      → loop n rs s ≡ ok t
      → All
          (λ r.
            is_critical_failure r ≡ true → 0 < count (has_occurrence_id (occurs r)) t.occurrences)
          rs
  unfolding record_each
  loop_receipt n [] s t h = tt
  loop_receipt n (r ∷ rs) s t h =
      let ((k, u), step, rest) = >>=-eq-ok (turn n r s) _ h in
      (
        λ critical. elim (turn_ways n k r s u step) [
          | inl (other, _, _) ↦ absurd (cc)
          | inr (i, next, called) ↦
              let written : 0 < count (has_occurrence_id (occurs r)) u.occurrences =
                unfold failure_report in
                record_alert_receipt digest (fresh n) (now n) (reported r) s i u called in
              omega (arith, written, loop-receipts k rs u t rest (occurs r))
        ],
        loop_receipt k rs u t rest,
      )

  module _ (distinct : (i j : ℕ) → fresh i ≡ fresh j → i ≡ j) where
    pub loop-IsValid :
        (n : ℕ) (rs : List (QualityResult V)) (s t : Store)
        → IsValid s
        → IsUnused fresh n s
        → loop n rs s ≡ ok t
        → IsValid t
    unfolding record_each
    loop-IsValid n [] s t valid unused h = let same : s ≡ t = ground arith in rw (← same) valid
    loop-IsValid n (r ∷ rs) s t valid unused h =
        let ((k, u), step, rest) = >>=-eq-ok (turn n r s) _ h in
        elim (turn_ways n k r s u step) [
          | inl (other, kept, same) ↦
              loop-IsValid k rs u t (rw same valid) (λ j le. rw same (unused j (rw kept at le)))
                rest
          | inr (i, next, called) ↦
              loop-IsValid k rs u t
                (record_alert-IsValid digest (fresh n) (now n) (reported r) s i u valid
                  (unused n (omega arith)) called)
                (λ j le.
                  record_alert_unused digest (fresh n) (now n) (reported r) s i u called (fresh j)
                    (λ same.
                      let index : n ≡ j = distinct n j same in omega (arith, le, next, index))
                    (unused j (omega (arith, le, next))))
                rest
        ]
