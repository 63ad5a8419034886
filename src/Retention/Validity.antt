-- ===== src/Retention/Validity.antt =====
-- `apply_retention` of src/quality/retention.py keeps the alert tables well formed.
use pulse_data_platform.Base.{
  ℕ, ◌-◌, ◌≡◌, refl, Bool, true, false, not, none, List, [], ◌∷◌, arith, All, All-map, All-zip,
  All-select_with, count, ◌==◌, count-select-le, count-select_kept, count-select_gone,
  find-select_kept, find-select_gone, Bool-cases, inl, inr, ok,
}
use pulse_data_platform.Alerts.Rows.{
  Uuid, AlertEvent, Audit, Store, has_id, is_active_for, has_occurrence_id, is_receipt_of,
}
use pulse_data_platform.Alerts.Invariant.{
  IsValid, IsTrail, IsCounted, IsAudited, IsOrdered, newest_status,
}
use pulse_data_platform.Retention.Rows.{Database, RetentionReport}
use pulse_data_platform.Retention.Eligible.{days, is_eligible_alert, is_eligible_id}
use pulse_data_platform.Retention.Applying.{
  delete, delete_expired, is_alert_expired, apply_retention,
}
use pulse_data_platform.Retention.Agreement.{is_alert_expired-eq, eligible_by_id}

module _ (cutoff : ℕ) (s : Store) (valid : IsValid s) where
  abbrev gone : Uuid → Bool
  gone = is_alert_expired cutoff s.events

  abbrev left : Store
  left = record {
    events = delete (is_eligible_alert cutoff) s.events;
    occurrences = delete (λ o. gone o.alert_event_id) s.occurrences;
    history = delete (λ h. gone h.alert_event_id) s.history;
  }

  gone_by_id : All (λ e. gone e.alert_event_id ≡ is_eligible_alert cutoff e) s.events
  gone_by_id =
      All-map (λ e. is_eligible_id cutoff s.events e.alert_event_id ≡ is_eligible_alert cutoff e)
        (λ e. gone e.alert_event_id ≡ is_eligible_alert cutoff e)
        (λ e same. rw (is_alert_expired-eq cutoff s.events e.alert_event_id) same) s.events
        (eligible_by_id cutoff s.events valid.one_event)

  receipts_kept :
      (i : Uuid)
      → gone i ≡ false
      → count (is_receipt_of i) left.occurrences ≡ count (is_receipt_of i) s.occurrences
  receipts_kept i kept =
      count-select_kept (is_receipt_of i) (λ o. not (gone o.alert_event_id))
        (λ o here. let this : o.alert_event_id ≡ i = ground arith in rw (this, kept) refl)
        s.occurrences

  receipts_gone : (i : Uuid) → gone i ≡ true → count (is_receipt_of i) left.occurrences ≡ 0
  receipts_gone i expired =
      count-select_gone (is_receipt_of i) (λ o. not (gone o.alert_event_id))
        (λ o here. let this : o.alert_event_id ≡ i = ground arith in rw (this, expired) refl)
        s.occurrences

  trail_kept :
      (h : List Audit) (i : Uuid)
      → gone i ≡ false
      → newest_status i (delete (λ a. gone a.alert_event_id) h) ≡ newest_status i h
  trail_kept h i kept =
      rw
        (find-select_kept (λ a. a.alert_event_id == i) (λ a. not (gone a.alert_event_id))
          (λ a here. let this : a.alert_event_id ≡ i = ground arith in rw (this, kept) refl) h)
        refl

  trail_gone :
      (h : List Audit) (i : Uuid)
      → gone i ≡ true
      → newest_status i (delete (λ a. gone a.alert_event_id) h) ≡ none
  trail_gone h i expired =
      rw
        (find-select_gone (λ a. a.alert_event_id == i) (λ a. not (gone a.alert_event_id))
          (λ a here. let this : a.alert_event_id ≡ i = ground arith in rw (this, expired) refl) h)
        refl

  left-IsTrail : (h : List Audit) → IsTrail h → IsTrail (delete (λ a. gone a.alert_event_id) h)
  left-IsTrail [] t = tt
  left-IsTrail (a ∷ h) t = elim (Bool-cases (gone a.alert_event_id)) [
    | inl expired ↦ rw expired (left-IsTrail h t.2)
    | inr kept ↦ rw kept (rw (trail_kept h a.alert_event_id kept) t.0, t.1, left-IsTrail h t.2)
  ]

  events_kept :
      (i : Uuid) (es : List AlertEvent)
      → is_alert_expired cutoff es i ≡ false
      → count (has_id i) (delete (is_eligible_alert cutoff) es) ≡ count (has_id i) es
  events_kept i [] h = refl
  events_kept i (e ∷ es) h = ground (arith, events_kept i es)

  -- Each event that is left: its rows are all left.
  of_left :
      (P Q : AlertEvent → Type 0)
      → ((e : AlertEvent) → P e → gone e.alert_event_id ≡ false → Q e)
      → All P s.events
      → All Q left.events
  of_left P Q f h =
      All-select_with (λ e. P e × (gone e.alert_event_id ≡ is_eligible_alert cutoff e)) Q
        (λ e. not (is_eligible_alert cutoff e))
        (λ e known stays. f e known.0 (rw known.1 (ground arith))) s.events
        (All-zip P (λ e. gone e.alert_event_id ≡ is_eligible_alert cutoff e)
          (λ e. P e × (gone e.alert_event_id ≡ is_eligible_alert cutoff e)) (λ e p q. (p, q))
          s.events h gone_by_id)

  pub left-IsValid : IsValid left
  left-IsValid = record {
    one_active = λ k.
        let fewer =
          count-select-le (is_active_for k) (λ e. not (is_eligible_alert cutoff e)) s.events in
        omega (arith, valid.one_active k, fewer);
    one_event = λ i.
        let fewer = count-select-le (has_id i) (λ e. not (is_eligible_alert cutoff e)) s.events in
        omega (arith, valid.one_event i, fewer);
    one_receipt = λ i.
        let fewer =
          count-select-le (has_occurrence_id i) (λ o. not (gone o.alert_event_id)) s.occurrences in
        omega (arith, valid.one_receipt i, fewer);
    receipts_linked = λ i absent. elim (Bool-cases (gone i)) [
      | inl expired ↦ receipts_gone i expired
      | inr kept ↦
          rw (receipts_kept i kept)
            (valid.receipts_linked i (rw (events_kept i s.events kept) at absent))
    ];
    history_linked = λ i absent. elim (Bool-cases (gone i)) [
      | inl expired ↦ trail_gone s.history i expired
      | inr kept ↦
          rw (trail_kept s.history i kept)
            (valid.history_linked i (rw (events_kept i s.events kept) at absent))
    ];
    counted =
        of_left (IsCounted s.occurrences) (IsCounted left.occurrences)
          (λ e h kept. rw (receipts_kept e.alert_event_id kept) h) valid.counted;
    audited =
        of_left (IsAudited s.history) (IsAudited left.history)
          (λ e h kept. rw (trail_kept s.history e.alert_event_id kept) h) valid.audited;
    ordered = of_left IsOrdered IsOrdered (λ e h kept. h) valid.ordered;
    trail = left-IsTrail s.history valid.trail;
  }

-- A retention run that commits, on well-formed alert tables, leaves them well formed: the receipts
-- and the audit trail go with their alert and with no other.
pub apply_retention-IsValid :
    (confirm : Bool) (retained now : ℕ) (m left : Database) (report : RetentionReport)
    → IsValid m.store
    → apply_retention confirm retained now m ≡ ok (report, left)
    → IsValid left.store
unfolding apply_retention
apply_retention-IsValid confirm retained now m after report valid h =
    let done : (delete_expired (now - days retained) m).1 ≡ after = ground arith in
    rw (← done) (unfold delete_expired in left-IsValid (now - days retained) m.store valid)
