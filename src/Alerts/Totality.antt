-- ===== src/Alerts/Totality.antt =====
-- When `record_alert` and `incident_key` of src/quality/alert_service.py return.
use pulse_data_platform.Base.{
  ℕ, ◌≡◌, ◌↔◌, ◌≢◌, ◌⊎◌, ◌∙◌, ◌&&◌, refl, String, true, false, is_blank, is_empty, Option, none,
  some, List, arith, inl, inr, Bool-cases, Option-cases, find, update, count_of_find-none,
  count-pos_of_find, eq_iff, ok,
}
use pulse_data_platform.Alerts.Rows.{
  Uuid, Json, SourceType, quality_failure, anomaly, other_source, Severity, info, warning, critical,
  Stamp, aware, naive, AlertEvent, Occurrence, Store, has_id, is_active_for, has_occurrence_id,
  is_receipt_of, is_resolved,
}
use pulse_data_platform.Alerts.Identity.{
  Condition, incident_key, payload, is_known, is_quality, lacks_text,
}
use pulse_data_platform.Alerts.Recording.{
  Observation, accepted_stamp, refreshed, first_report, record_keyed, record_alert,
}
use pulse_data_platform.Alerts.Invariant.{IsValid}
use pulse_data_platform.Alerts.Recorded.{
  Recorded, opens, joins, ignores, refreshes, record_alert-Recorded,
}

-- A receipt leads to its alert: the foreign key.
receipt_has_event :
    (s : Store) (j : Uuid) (r : Occurrence)
    → IsValid s
    → find (has_occurrence_id j) s.occurrences ≡ some r
    → (e : AlertEvent) × (find (has_id r.alert_event_id) s.events ≡ some e)
receipt_has_event s j r valid there =
    elim (Option-cases (find (has_id r.alert_event_id) s.events)) [
      | inr found ↦ found
      | inl missing ↦ absurd (
          omega (
            arith,
            valid.receipts_linked r.alert_event_id
                (count_of_find-none (has_id r.alert_event_id) s.events missing),
            count-pos_of_find (has_occurrence_id j) (is_receipt_of r.alert_event_id) s.occurrences r
                there (ground arith),
          ))
    ]

-- What makes a condition one that has an incident key: its source is known, its texts are not
-- blank, and a quality failure has the name of its check.
pub record IsIdentified (c : Condition) : Type 0 where
  pub known : (c.source_type ≡ quality_failure) ⊎ (c.source_type ≡ anomaly)
  pub dataset : is_blank c.dataset_name ≡ false
  pub layer : is_blank c.layer ≡ false
  pub metric : is_blank c.metric_name ≡ false
  pub check :
      (c.source_type ≢ quality_failure)
      ⊎ ((name : String) × (c.check_name ≡ some name) × (is_empty name ≡ false))

text_of_lacks :
    (o : Option String)
    → lacks_text o ≡ false
    → (name : String) × (o ≡ some name) × (is_empty name ≡ false)
text_of_lacks none h = absurd (cc)
text_of_lacks (some name) h = (name, refl, h)

incident_key-IsIdentified :
    (digest : List Json → String) (c : Condition) (k : String)
    → incident_key digest c ≡ ok k
    → IsIdentified c × (k ≡ digest (payload c))
unfolding incident_key
incident_key-IsIdentified digest c k h = (
  record {
    known = by_source c.source_type (ground arith);
    dataset = ground arith;
    layer = ground arith;
    metric = ground arith;
    check = elim (Bool-cases (is_quality c.source_type)) [
      | inl quality ↦ inr (text_of_lacks c.check_name (ground arith))
      | inr other ↦ inl (λ e. let same : is_quality c.source_type ≡ true = rw e refl in cc)
    ];
  },
  ground arith,
)
  where
    by_source : (u : SourceType) → is_known u ≡ true → (u ≡ quality_failure) ⊎ (u ≡ anomaly)
    by_source quality_failure h = inl refl
    by_source anomaly h = inr refl
    by_source (other_source x) h = absurd (cc)

incident_key_of_IsIdentified :
    (digest : List Json → String) (c : Condition)
    → IsIdentified c
    → incident_key digest c ≡ ok (digest (payload c))
unfolding incident_key
incident_key_of_IsIdentified digest c h =
    let known : is_known c.source_type ≡ true = elim h.known [
      | inl e ↦ rw e refl
      | inr e ↦ rw e refl
    ] in
    let checked : (is_quality c.source_type && lacks_text c.check_name) ≡ false = elim h.check [
      | inl other ↦ by_source c.source_type other
      | inr (name, e, filled) ↦ rw e (ground arith)
    ] in
    rw (known, h.dataset, h.layer, h.metric, checked) refl
  where
    by_source :
        (u : SourceType) → u ≢ quality_failure → (is_quality u && lacks_text c.check_name) ≡ false
    by_source quality_failure h = absurd (h refl)
    by_source anomaly h = refl
    by_source (other_source x) h = refl

-- The conditions under which a call returns.
pub record IsAccepted (digest : List Json → String) (o : Observation) (s : Store) : Type 0 where
  pub identified : IsIdentified o.condition
  pub severity : (o.severity ≡ warning) ⊎ (o.severity ≡ critical)
  pub seen : ℕ
  pub stamp : o.seen_at ≡ aware seen
  pub receipt_agrees :
      (r : Occurrence)
      → find (has_occurrence_id o.occurrence_id) s.occurrences ≡ some r
      → r.incident_key ≡ digest (payload o.condition)

accepted_stamp_of :
    (v : Severity) (at : Stamp) (seen : ℕ)
    → accepted_stamp v at ≡ ok seen
    → ((v ≡ warning) ⊎ (v ≡ critical)) × (at ≡ aware seen)
unfolding accepted_stamp
accepted_stamp_of info (aware t) seen h = absurd (cc)
accepted_stamp_of warning (aware t) seen h = (inl refl, ground arith)
accepted_stamp_of critical (aware t) seen h = (inr refl, ground arith)
accepted_stamp_of v (naive t) seen h = absurd (cc)

stamp_accepted :
    (v : Severity) (at : Stamp) (seen : ℕ)
    → (v ≡ warning) ⊎ (v ≡ critical)
    → at ≡ aware seen
    → accepted_stamp v at ≡ ok seen
unfolding accepted_stamp
stamp_accepted v at seen (inl e) same = rw (e, same) refl
stamp_accepted v at seen (inr e) same = rw (e, same) refl

record_keyed_returns :
    (fresh : Uuid) (now : ℕ) (o : Observation) (key : String) (seen : ℕ) (s : Store)
    (r : Occurrence) (e : AlertEvent)
    → r.incident_key ≡ key
    → find (has_id r.alert_event_id) s.events ≡ some e
    → (t : Store) × (record_keyed (some r) fresh now o key seen s ≡ ok (r.alert_event_id, t))
unfolding record_keyed
record_keyed_returns fresh now o key seen s r e same found =
    elim (Bool-cases (is_resolved e.status)) [
      | inl done ↦ (s, rw found (ground (arith, eq_iff r.incident_key key)))
      | inr live ↦ (
        record s { events = update (has_id r.alert_event_id) (refreshed o seen 0) s.events },
        rw found (ground (arith, eq_iff r.incident_key key)),
      )
    ]

record_alert_returns_of :
    (digest : List Json → String) (fresh : Uuid) (now : ℕ) (o : Observation) (s : Store)
    (key : String) (seen : ℕ) (i : Uuid) (t : Store) (f : Option Occurrence)
    → incident_key digest o.condition ≡ ok key
    → accepted_stamp o.severity o.seen_at ≡ ok seen
    → find (has_occurrence_id o.occurrence_id) s.occurrences ≡ f
    → record_keyed f fresh now o key seen s ≡ ok (i, t)
    → record_alert digest fresh now o s ≡ ok (i, t)
unfolding record_alert
record_alert_returns_of digest fresh now o s key seen i t f keyed stamped found h =
    rw (keyed, stamped, found) h

record_keyed_first :
    (fresh : Uuid) (now : ℕ) (o : Observation) (key : String) (seen : ℕ) (s : Store)
    → (i : Uuid) × (t : Store) × (record_keyed none fresh now o key seen s ≡ ok (i, t))
unfolding record_keyed
record_keyed_first fresh now o key seen s = (
  (first_report (find (is_active_for key) s.events) fresh now o key seen s).0,
  (first_report (find (is_active_for key) s.events) fresh now o key seen s).1,
  refl,
)

receipt_agrees_of :
    (fresh : Uuid) (now : ℕ) (o : Observation) (key : String) (seen : ℕ) (s : Store) (i : Uuid)
    (t : Store)
    → Recorded fresh now o key seen s i t
    → (r : Occurrence) → find (has_occurrence_id o.occurrence_id) s.occurrences ≡ some r
    → r.incident_key ≡ key
receipt_agrees_of fresh now o key seen s i t (opens new absent _ _) r there = absurd (cc)
receipt_agrees_of fresh now o key seen s i t (joins e new found _ _) r there = absurd (cc)
receipt_agrees_of fresh now o key seen s i t (ignores q e old same _ _ _ _) r there = ground arith
receipt_agrees_of fresh now o key seen s i t (refreshes q e old same _ _ _ _) r there = ground arith

-- On well-formed tables a call of `record_alert` returns exactly if the source is known, the dataset,
-- the layer and the metric are not blank, a quality failure names its check, the severity is WARNING
-- or CRITICAL, the timestamp has an offset, and a receipt of the occurrence, if there is one, is
-- under the key of the condition.
pub record_alert_returns_iff :
    (digest : List Json → String) (fresh : Uuid) (now : ℕ) (o : Observation) (s : Store)
    → IsValid s
    → ((i : Uuid) × (t : Store) × (record_alert digest fresh now o s ≡ ok (i, t)))
      ↔ IsAccepted digest o s
record_alert_returns_iff digest fresh now o s valid = (
  λ (i, t, h).
      let (key, seen, keyed, stamped, way) = record_alert-Recorded digest fresh now o s i t h in
      let (identified, same) = incident_key-IsIdentified digest o.condition key keyed in
      let (severe, at) = accepted_stamp_of o.severity o.seen_at seen stamped in
      record {
        identified = identified;
        severity = severe;
        seen = seen;
        stamp = at;
        receipt_agrees = λ r there. receipt_agrees_of fresh now o key seen s i t way r there ∙ same;
      },
  λ accepted. returns accepted,
)
  where
    returns :
        IsAccepted digest o s
        → (i : Uuid) × (t : Store) × (record_alert digest fresh now o s ≡ ok (i, t))
    returns a =
        let key = digest (payload o.condition) in
        let keyed = incident_key_of_IsIdentified digest o.condition a.identified in
        let stamped = stamp_accepted o.severity o.seen_at a.seen a.severity a.stamp in
        elim (Option-cases (find (has_occurrence_id o.occurrence_id) s.occurrences)) [
          | inl new ↦
              let (i, t, h) = record_keyed_first fresh now o key a.seen s in
              (
                i,
                t,
                record_alert_returns_of digest fresh now o s key a.seen i t none keyed stamped new
                    h,
              )
          | inr (r, old) ↦
              let (e, there) = receipt_has_event s o.occurrence_id r valid old in
              let (t, h) =
                record_keyed_returns fresh now o key a.seen s r e (a.receipt_agrees r old) there in
              (
                r.alert_event_id,
                t,
                record_alert_returns_of digest fresh now o s key a.seen r.alert_event_id t (some r)
                    keyed stamped old h,
              )
        ]
