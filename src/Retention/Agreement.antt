-- ===== src/Retention/Agreement.antt =====
-- The DELETE statements of `apply_retention` of src/quality/retention.py take exactly the rows that
-- `_counts` counts on the same tables.
use pulse_data_platform.Base.{
  ℕ, ◌≤◌, ◌≡◌, refl, sym, Bool, true, false, not, ◌&&◌, List, arith, All, All-map, any, count, ltb,
  ◌==◌, any-eq, any-eq_All, any_weaken, any-select, any-and, any-swap, any-false, ◌∙◌, any-keyed,
  Bool-cases, inl, inr,
}
use pulse_data_platform.Alerts.Rows.{Uuid, AlertEvent, has_id}
use pulse_data_platform.Retention.Rows.{QualityRun, QualityResult, AnomalyResult}
use pulse_data_platform.Retention.Eligible.{
  is_eligible_alert, is_eligible_id, is_eligible_run, is_eligible_anomaly, is_result_needed,
  is_quality_source, names_result, names_anomaly,
}
use pulse_data_platform.Retention.Applying.{
  delete, is_alert_expired, is_anomaly_expired, is_run_named, is_result_expired, is_run_expired,
}

module _ (cutoff : ℕ) (es : List AlertEvent) where
  pub is_alert_expired-eq : (i : Uuid) → is_alert_expired cutoff es i ≡ is_eligible_id cutoff es i
  unfolding is_eligible_id
  is_alert_expired-eq i =
      any-eq (λ a. i == a.alert_event_id && is_eligible_alert cutoff a)
        (λ e. e.alert_event_id == i && is_eligible_alert cutoff e) (λ a. ground arith) es

  module _ (unique : (i : Uuid) → count (has_id i) es ≤ 1) where
    pub eligible_by_id :
        All (λ a. is_eligible_id cutoff es a.alert_event_id ≡ is_eligible_alert cutoff a) es
    unfolding is_eligible_id
    eligible_by_id = any-keyed (λ e. e.alert_event_id) (is_eligible_alert cutoff) es unique

    -- A test of the alerts that are left.
    any-left :
        (p : AlertEvent → Bool)
        → any p (delete (is_eligible_alert cutoff) es)
          ≡ any (λ a. p a && not (is_eligible_id cutoff es a.alert_event_id)) es
    any-left p = rw (any-select p (λ x. not (is_eligible_alert cutoff x)) es) (
        any-eq_All (λ a. p a && not (is_eligible_alert cutoff a))
          (λ a. p a && not (is_eligible_id cutoff es a.alert_event_id)) es
          (All-map (λ a. is_eligible_id cutoff es a.alert_event_id ≡ is_eligible_alert cutoff a)
            (λ a.
              (p a && not (is_eligible_alert cutoff a))
              ≡ (p a && not (is_eligible_id cutoff es a.alert_event_id)))
            (λ a same. rw same refl) es eligible_by_id))

    pub is_anomaly_expired-eq :
        (r : AnomalyResult)
        → is_anomaly_expired cutoff (delete (is_eligible_alert cutoff) es) r
          ≡ is_eligible_anomaly cutoff es r
    unfolding is_eligible_anomaly
    is_anomaly_expired-eq r = rw (any-left (names_anomaly r.anomaly_id)) refl

    abbrev names_run : QualityRun → QualityResult → AlertEvent → Bool
    names_run r s a =
        is_quality_source a.source_type
        && s.quality_result_id == a.source_id
        && s.quality_run_id == r.quality_run_id

    abbrev is_run_needed : List QualityResult → QualityRun → Bool
    is_run_needed qs r =
        any
          (λ q.
            q.quality_run_id == r.quality_run_id && is_result_needed cutoff es q.quality_result_id)
          qs

    needed_by :
        (r : QualityRun) (s : QualityResult)
        → any (λ a. names_run r s a && not (is_eligible_id cutoff es a.alert_event_id)) es
          ≡ (s.quality_run_id == r.quality_run_id && is_result_needed cutoff es s.quality_result_id)
    unfolding is_result_needed
    needed_by r s =
        let stays = λ (a : AlertEvent). not (is_eligible_id cutoff es a.alert_event_id) in
        let named = λ (a : AlertEvent). names_result s.quality_result_id a && stays a in
        rw (sym (any-and (s.quality_run_id == r.quality_run_id) named es)) (
          any-eq (λ a. names_run r s a && stays a)
            (λ a. s.quality_run_id == r.quality_run_id && named a) (λ a. ground arith) es)

    pub is_run_named-eq :
        (qs : List QualityResult) (r : QualityRun)
        → is_run_named (delete (is_eligible_alert cutoff) es) qs r ≡ is_run_needed qs r
    is_run_named-eq qs r =
        rw (any-swap (λ a s. names_run r s a) (delete (is_eligible_alert cutoff) es) qs) (
          any-eq (λ s. any (names_run r s) (delete (is_eligible_alert cutoff) es))
            (λ q.
              q.quality_run_id == r.quality_run_id
              && is_result_needed cutoff es q.quality_result_id)
            (λ s. rw (any-left (names_run r s)) (needed_by r s)) qs)

    run_by_need :
        (qs : List QualityResult) (r : QualityRun)
        → is_eligible_run cutoff es qs r
          ≡ (ltb r.completed_at_utc cutoff && not (is_run_needed qs r))
    unfolding is_eligible_run
    run_by_need qs r = refl

    pub is_result_expired-eq :
        (rs : List QualityRun) (qs : List QualityResult) (q : QualityResult)
        → is_result_expired cutoff (delete (is_eligible_alert cutoff) es) rs qs q
          ≡ any (λ r. r.quality_run_id == q.quality_run_id && is_eligible_run cutoff es qs r) rs
    is_result_expired-eq rs qs q =
        any-eq
          (λ r.
            q.quality_run_id == r.quality_run_id
            && ltb r.completed_at_utc cutoff
            && not (is_run_named (delete (is_eligible_alert cutoff) es) qs r))
          (λ r. r.quality_run_id == q.quality_run_id && is_eligible_run cutoff es qs r)
          (λ r. rw (is_run_named-eq qs r, run_by_need qs r) (ground arith)) rs

    -- A run that some alert needs keeps its results.
    module _ (rs : List QualityRun) (qs : List QualityResult) (r : QualityRun) where
      abbrev is_gone : QualityResult → Bool
      is_gone = is_result_expired cutoff (delete (is_eligible_alert cutoff) es) rs qs

      kept_run :
          (e : QualityRun) (q : QualityResult)
          → is_run_needed qs r ≡ true
          → (q.quality_run_id == r.quality_run_id) ≡ true
          → (e.quality_run_id == q.quality_run_id && is_eligible_run cutoff es qs e) ≡ false
      kept_run e q needed same = elim (Bool-cases (e.quality_run_id == q.quality_run_id)) [
        | inl this ↦
            let one_run : e.quality_run_id ≡ r.quality_run_id = ground arith in
            let still : is_run_needed qs e ≡ true = rw one_run needed in
            rw (run_by_need qs e, still) (ground arith)
        | inr that ↦ rw that refl
      ]

      needed_stays :
          (q : QualityResult)
          → is_run_needed qs r ≡ true
          → (q.quality_run_id == r.quality_run_id) ≡ true
          → is_gone q ≡ false
      needed_stays q needed same = rw (is_result_expired-eq rs qs q) (
          any-eq (λ e. e.quality_run_id == q.quality_run_id && is_eligible_run cutoff es qs e)
            (λ e. false) (λ e. kept_run e q needed same) rs
          ∙ any-false rs)

      unneeded_goes :
          (q : QualityResult)
          → any (λ e. e.quality_run_id == r.quality_run_id && is_eligible_run cutoff es qs e) rs
            ≡ true
          → (q.quality_run_id == r.quality_run_id) ≡ true
          → is_gone q ≡ true
      unneeded_goes q found same =
          let one_run : q.quality_run_id ≡ r.quality_run_id = ground arith in
          rw (is_result_expired-eq rs qs q, one_run) found

      none_left :
          any (λ e. e.quality_run_id == r.quality_run_id && is_eligible_run cutoff es qs e) rs
            ≡ true
          → any (λ q. q.quality_run_id == r.quality_run_id) (delete is_gone qs) ≡ false
      none_left found =
          rw (any-select (λ q. q.quality_run_id == r.quality_run_id) (λ q. not (is_gone q)) qs) (
            any-eq (λ q. q.quality_run_id == r.quality_run_id && not (is_gone q)) (λ q. false)
              (λ q. ground (arith, unneeded_goes q found)) qs
            ∙ any-false qs)

      some_left :
          is_run_needed qs r ≡ true
          → any (λ q. q.quality_run_id == r.quality_run_id) (delete is_gone qs) ≡ true
      some_left needed =
          rw (any-select (λ q. q.quality_run_id == r.quality_run_id) (λ q. not (is_gone q)) qs) (
            any_weaken
              (λ q.
                q.quality_run_id == r.quality_run_id
                && is_result_needed cutoff es q.quality_result_id)
              (λ q. q.quality_run_id == r.quality_run_id && not (is_gone q))
              (λ q h. ground (arith, needed_stays q needed)) qs needed)

      -- With its results gone, a run goes exactly if it was eligible.
      pub run_expired :
          (is_eligible_run cutoff es qs r ≡ true
            → any (λ e. e.quality_run_id == r.quality_run_id && is_eligible_run cutoff es qs e) rs
              ≡ true)
          → is_run_expired cutoff (delete is_gone qs) r ≡ is_eligible_run cutoff es qs r
      run_expired found = elim (Bool-cases (is_run_needed qs r)) [
        | inl needed ↦ rw (run_by_need qs r, some_left needed, needed) refl
        | inr unneeded ↦ elim (Bool-cases (ltb r.completed_at_utc cutoff)) [
          | inl old ↦
              let eligible : is_eligible_run cutoff es qs r ≡ true =
                rw (run_by_need qs r, unneeded, old) refl in
              rw (eligible, old, none_left (found eligible)) refl
          | inr new ↦ rw (run_by_need qs r, new) refl
        ]
      ]
