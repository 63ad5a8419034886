-- ===== src/Alerts/Validity.antt =====
-- `record_alert` and `change_status` of src/quality/alert_service.py keep the tables well formed.
use pulse_data_platform.Base.{
  ℕ, ◌+◌, ◌≤◌, ◌<◌, ◌≡◌, refl, sym, subst, String, false, none, List, ◌∷◌, arith, inl, inr,
  Bool-cases, find, find_sound, update, count, count_of_find-none, All, All-of_count, All-zip,
  All-update, count-update, count-pos_of_find, str_eq, eq_iff, ◌==◌, ==_iff, ok, if◌then◌else◌,
}
use pulse_data_platform.Alerts.Rows.{
  Uuid, Json, AlertEvent, Audit, Occurrence, Store, is_active, has_id, is_active_for,
  has_occurrence_id, is_receipt_of,
}
use pulse_data_platform.Alerts.Recording.{
  Observation, opened, receipt, audit, refreshed, open_incident, report_again, record_alert,
}
use pulse_data_platform.Alerts.Invariant.{IsValid, IsCounted, IsAudited, IsOrdered}
use pulse_data_platform.Alerts.Recorded.{
  Recorded, opens, joins, ignores, refreshes, record_alert-Recorded,
}

module _ (o : Observation) (key : String) (seen : ℕ) (s : Store) (valid : IsValid s) where
  new_receipt :
      (i j : Uuid)
      → find (has_occurrence_id o.occurrence_id) s.occurrences ≡ none
      → count (has_occurrence_id j) (receipt i o key seen ∷ s.occurrences) ≤ 1
  unfolding receipt
  new_receipt i j new = ground (
    arith,
    ==_iff o.occurrence_id j,
    valid.one_receipt j,
    count_of_find-none (has_occurrence_id o.occurrence_id) s.occurrences new,
  )

  module _ (fresh : Uuid) (now : ℕ) (unused : count (has_id fresh) s.events ≡ 0) where
    opened-IsCounted : All (IsCounted (receipt fresh o key seen ∷ s.occurrences)) s.events
    unfolding receipt
    opened-IsCounted =
        All-zip _ _ _ step s.events valid.counted (All-of_count (has_id fresh) s.events unused)
      where
        step :
            (e : AlertEvent)
            → IsCounted s.occurrences e
            → has_id fresh e ≡ false
            → IsCounted (receipt fresh o key seen ∷ s.occurrences) e
        step e h other = ground arith

    opened-IsAudited :
        (a : Audit) → a.alert_event_id ≡ fresh → All (IsAudited (a ∷ s.history)) s.events
    opened-IsAudited a same =
        All-zip _ _ _ step s.events valid.audited (All-of_count (has_id fresh) s.events unused)
      where
        step :
            (e : AlertEvent)
            → IsAudited s.history e
            → has_id fresh e ≡ false
            → IsAudited (a ∷ s.history) e
        step e h other = ground arith

    no_receipts : 1 ≡ count (is_receipt_of fresh) (receipt fresh o key seen ∷ s.occurrences)
    unfolding receipt
    no_receipts = ground (arith, valid.receipts_linked fresh unused)

    opened_active :
        find (is_active_for key) s.events ≡ none
        → (k : String) → count (is_active_for k) (opened fresh o key seen ∷ s.events) ≤ 1
    unfolding opened is_active
    opened_active absent k = elim (Bool-cases (str_eq key k)) [
      | inl same ↦
          let none_active : count (is_active_for k) s.events ≡ 0 =
            subst (λ j. count (is_active_for j) s.events ≡ 0) ((eq_iff key k).0 same)
              (count_of_find-none (is_active_for key) s.events absent) in
          ground arith
      | inr other ↦ ground (arith, valid.one_active k)
    ]

    open_incident-IsValid :
        find (has_occurrence_id o.occurrence_id) s.occurrences ≡ none
        → find (is_active_for key) s.events ≡ none
        → IsValid (open_incident fresh now o key seen s)
    unfolding open_incident opened receipt audit is_active
    open_incident-IsValid new absent = record {
      one_active = λ k. opened_active absent k;
      one_event = λ i. ground (arith, valid.one_event i);
      one_receipt = λ i. new_receipt fresh i new;
      receipts_linked = λ i none_left. ground (arith, valid.receipts_linked i);
      history_linked = λ i none_left. ground (arith, valid.history_linked i);
      counted = (no_receipts, opened-IsCounted);
      audited = (ground arith, opened-IsAudited _ refl);
      ordered = (omega arith, valid.ordered);
      trail = (sym (valid.history_linked fresh unused), refl, valid.trail);
    }

  module _ (i : Uuid) (added : ℕ) (known : 0 < count (has_id i) s.events) where
    refreshed_events : List AlertEvent
    refreshed_events = update (has_id i) (refreshed o seen added) s.events

    same_ids : (j : Uuid) → count (has_id j) refreshed_events ≡ count (has_id j) s.events
    unfolding refreshed_events refreshed
    same_ids j = count-update (has_id j) (has_id i) (refreshed o seen added) (λ e _. refl) s.events

    same_active :
        (k : String) → count (is_active_for k) refreshed_events ≡ count (is_active_for k) s.events
    unfolding refreshed_events refreshed
    same_active k =
        count-update (is_active_for k) (has_id i) (refreshed o seen added) (λ e _. refl) s.events

    refreshed-IsCounted :
        (os : List Occurrence)
        → ((j : Uuid)
            → count (is_receipt_of j) os
              ≡ (if i == j then added else 0) + count (is_receipt_of j) s.occurrences)
        → All (IsCounted os) refreshed_events
    unfolding refreshed_events refreshed
    refreshed-IsCounted os more =
        All-update (IsCounted s.occurrences) (IsCounted os) (has_id i) (refreshed o seen added)
          (λ e h this. ground (arith, more e.alert_event_id))
          (λ e h other. ground (arith, more e.alert_event_id)) s.events valid.counted

    refreshed-IsAudited : All (IsAudited s.history) refreshed_events
    unfolding refreshed_events refreshed
    refreshed-IsAudited =
        All-update (IsAudited s.history) (IsAudited s.history) (has_id i) (refreshed o seen added)
          (λ e h this. h) (λ e h other. h) s.events valid.audited

    refreshed-IsOrdered : All IsOrdered refreshed_events
    unfolding refreshed_events refreshed
    refreshed-IsOrdered =
        All-update IsOrdered IsOrdered (has_id i) (refreshed o seen added) (λ e h this. omega arith)
          (λ e h other. h) s.events valid.ordered

    refresh-IsValid :
        (os : List Occurrence)
        → ((j : Uuid) → count (has_occurrence_id j) os ≤ 1)
        → ((j : Uuid)
            → count (is_receipt_of j) os
              ≡ (if i == j then added else 0) + count (is_receipt_of j) s.occurrences)
        → IsValid (record s { events = refreshed_events; occurrences = os })
    refresh-IsValid os distinct more = record {
      one_active = λ k. rw same_active (valid.one_active k);
      one_event = λ j. rw same_ids (valid.one_event j);
      one_receipt = distinct;
      receipts_linked =
          λ j none_left. ground (arith, more j, same_ids j, ==_iff i j, valid.receipts_linked j);
      history_linked = λ j none_left. valid.history_linked j (rw same_ids at none_left);
      counted = refreshed-IsCounted os more;
      audited = refreshed-IsAudited;
      ordered = refreshed-IsOrdered;
      trail = valid.trail;
    }

  Recorded-IsValid :
      (fresh : Uuid) (now : ℕ) (i : Uuid) (t : Store)
      → count (has_id fresh) s.events ≡ 0
      → Recorded fresh now o key seen s i t
      → IsValid t
  Recorded-IsValid fresh now i t unused (opens new absent _ made) =
      rw made (open_incident-IsValid fresh now unused new absent)
  Recorded-IsValid fresh now i t unused (joins e new found _ made) = rw made (
      unfold report_again refreshed_events receipt in
      refresh-IsValid e.alert_event_id 1
        (count-pos_of_find (is_active_for key) (has_id e.alert_event_id) s.events e found
          (ground arith))
        (receipt e.alert_event_id o key seen ∷ s.occurrences)
        (λ j. new_receipt e.alert_event_id j new) (λ j. refl))
  Recorded-IsValid fresh now i t unused (ignores r e old same found done _ made) = rw made valid
  Recorded-IsValid fresh now i t unused (refreshes r e old same found live _ made) = rw made (
      unfold refreshed_events in
      refresh-IsValid r.alert_event_id 0
        (count-pos_of_find (has_id r.alert_event_id) (has_id r.alert_event_id) s.events e found
          (find_sound (has_id r.alert_event_id) s.events e found))
        s.occurrences valid.one_receipt (λ j. ground arith))

-- A call of `record_alert` that returns, on well-formed tables and with an identity from `uuid4`
-- that no alert has, leaves the tables well formed: one active alert at most for each incident
-- key, unique identities and receipts, counters equal to the receipts, first sighting before the
-- last, and an audit trail that follows the lifecycle and ends in each alert's status.
pub record_alert-IsValid :
    (digest : List Json → String) (fresh : Uuid) (now : ℕ) (o : Observation) (s : Store) (i : Uuid)
    (t : Store)
    → IsValid s
    → count (has_id fresh) s.events ≡ 0
    → record_alert digest fresh now o s ≡ ok (i, t)
    → IsValid t
record_alert-IsValid digest fresh now o s i t valid unused h =
    let (key, seen, _, _, way) = record_alert-Recorded digest fresh now o s i t h in
    Recorded-IsValid o key seen s valid fresh now i t unused way
