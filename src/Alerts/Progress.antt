-- ===== src/Alerts/Progress.antt =====
-- What a call of `record_alert` of src/quality/alert_service.py does to the alerts that are there,
-- and that a detected condition has its one active alert afterwards.
use pulse_data_platform.Base.{
  ℕ, ◌+◌, ◌≤◌, ◌≡◌, refl, sym, ap, ◌∙◌, String, none, some, List, arith, inl, inr, Bool-cases, find,
  find_sound, find-update, update, map, map-update, count, count-pos_of_find, eq_refl, ==_iff, ok,
  if◌then◌else◌,
}
use pulse_data_platform.Alerts.Rows.{
  Uuid, Json, Severity, info, warning, critical, AlertEvent, Occurrence, Store, is_active, has_id,
  is_active_for, has_occurrence_id,
}
use pulse_data_platform.Alerts.Identity.{incident_key}
use pulse_data_platform.Alerts.Recording.{
  Observation, worse, opened, refreshed, open_incident, report_again, record_alert,
}
use pulse_data_platform.Alerts.Invariant.{IsValid}
use pulse_data_platform.Alerts.Recorded.{
  Recorded, opens, joins, ignores, refreshes, record_alert-Recorded,
}
use pulse_data_platform.Alerts.Validity.{record_alert-IsValid}
use pulse_data_platform.Alerts.Replays.{tally, tally-refreshed}

-- INFO, WARNING, CRITICAL in order.
abbrev pub rank : Severity → ℕ
rank info = 0
rank warning = 1
rank critical = 2

-- A row after a call: it has its identity, key and status still, its sightings span no less, its
-- severity has not gone down, and it counts at most one occurrence more.
pub record Grows (e f : AlertEvent) : Type 0 where
  pub id : f.alert_event_id ≡ e.alert_event_id
  pub key : f.incident_key ≡ e.incident_key
  pub status : f.status ≡ e.status
  pub first : f.first_seen_at_utc ≤ e.first_seen_at_utc
  pub last : e.last_seen_at_utc ≤ f.last_seen_at_utc
  pub rank : rank e.severity ≤ rank f.severity
  pub count_up : e.occurrence_count ≤ f.occurrence_count
  pub count_step : f.occurrence_count ≤ e.occurrence_count + 1

Grows-refl : (e : AlertEvent) → Grows e e
Grows-refl e = ground arith

refreshed-Grows :
    (o : Observation) (seen n : ℕ) (e : AlertEvent) → n ≤ 1 → Grows e (refreshed o seen n e)
unfolding refreshed worse
refreshed-Grows o seen n e h = ground arith

module _ (o : Observation) (key : String) (seen : ℕ) (s : Store) where
  updated-Grows :
      (i : Uuid) (n : ℕ)
      → n ≤ 1
      → (j : Uuid) (e : AlertEvent) → find (has_id j) s.events ≡ some e
      → (f : AlertEvent) × (find (has_id j) (update (has_id i) (refreshed o seen n) s.events)
          ≡ some f)
        × Grows e f
  updated-Grows i n h j e there = (
    if has_id i e then refreshed o seen n e else e,
    unfold refreshed in
        find-update (has_id j) (has_id i) (refreshed o seen n) (λ y. refl) s.events e there,
    elim (Bool-cases (has_id i e)) [
      | inl this ↦ rw this (refreshed-Grows o seen n e h)
      | inr other ↦ rw other (Grows-refl e)
    ],
  )

  Recorded-Grows :
      (fresh : Uuid) (now : ℕ) (i : Uuid) (t : Store)
      → count (has_id fresh) s.events ≡ 0
      → Recorded fresh now o key seen s i t
      → (j : Uuid) (e : AlertEvent) → find (has_id j) s.events ≡ some e
      → (f : AlertEvent) × (find (has_id j) t.events ≡ some f) × Grows e f
  Recorded-Grows fresh now i t unused (opens new absent _ made) j e there = (
    e,
    rw made (
        unfold open_incident opened in
        ground (
          arith,
          ==_iff fresh j,
          count-pos_of_find (has_id j) (has_id j) s.events e there
              (find_sound (has_id j) s.events e there),
        )),
    Grows-refl e,
  )
  Recorded-Grows fresh now i t unused (joins x new found _ made) j e there =
      rw made (unfold report_again in updated-Grows x.alert_event_id 1 (omega arith) j e there)
  Recorded-Grows fresh now i t unused (ignores r x old same found done _ made) j e there =
      (e, rw made there, Grows-refl e)
  Recorded-Grows fresh now i t unused (refreshes r x old same found live _ made) j e there =
      rw made (updated-Grows r.alert_event_id 0 (omega arith) j e there)

  -- A first report leaves an active alert of its key, the one that it returns.
  Recorded-active :
      (fresh : Uuid) (now : ℕ) (i : Uuid) (t : Store)
      → find (has_occurrence_id o.occurrence_id) s.occurrences ≡ none
      → Recorded fresh now o key seen s i t
      → (e : AlertEvent) × (find (is_active_for key) t.events ≡ some e) × (e.alert_event_id ≡ i)
  Recorded-active fresh now i t first (opens new absent who made) = (
    opened fresh o key seen,
    rw made (unfold open_incident opened is_active in rw (eq_refl key)),
    unfold opened in sym who,
  )
  Recorded-active fresh now i t first (joins x new found who made) = (
    refreshed o seen 1 x,
    rw made (
        unfold report_again refreshed is_active in
        find-update (is_active_for key) (has_id x.alert_event_id) (refreshed o seen 1) (λ y. refl)
          s.events x found
        ∙ ground (arith, ==_iff x.alert_event_id x.alert_event_id)),
    unfold refreshed in sym who,
  )
  Recorded-active fresh now i t first (ignores r x old same found done _ made) = absurd (cc)
  Recorded-active fresh now i t first (refreshes r x old same found live _ made) = absurd (cc)

  -- A replay leaves the receipts, the audit trail and every counter and status alone.
  Recorded-replay :
      (fresh : Uuid) (now : ℕ) (i : Uuid) (t : Store) (r : Occurrence)
      → find (has_occurrence_id o.occurrence_id) s.occurrences ≡ some r
      → Recorded fresh now o key seen s i t
      → (i ≡ r.alert_event_id)
        × (t.occurrences ≡ s.occurrences)
        × (t.history ≡ s.history)
        × (map tally t.events ≡ map tally s.events)
  Recorded-replay fresh now i t r there (opens new absent who made) = absurd (cc)
  Recorded-replay fresh now i t r there (joins x new found who made) = absurd (cc)
  Recorded-replay fresh now i t r there (ignores q x old same found done who made) = (
    ground arith,
    ap (λ (u : Store). u.occurrences) made,
    ap (λ (u : Store). u.history) made,
    ap (λ (u : Store). map tally u.events) made,
  )
  Recorded-replay fresh now i t r there (refreshes q x old same found live who made) = (
    ground arith,
    ap (λ (u : Store). u.occurrences) made,
    ap (λ (u : Store). u.history) made,
    ap (λ (u : Store). map tally u.events) made
        ∙ map-update (has_id q.alert_event_id) (refreshed o seen 0) tally (tally-refreshed o seen)
            s.events,
  )

-- A call that returns loses no alert: each one has a row of its identity, key and status still,
-- whose first sighting is no later, whose last sighting and severity are no lower, and whose
-- counter is the same or one higher. `uuid4` gives an identity that no alert has.
pub record_alert-Grows :
    (digest : List Json → String) (fresh : Uuid) (now : ℕ) (o : Observation) (s : Store) (i : Uuid)
    (t : Store)
    → count (has_id fresh) s.events ≡ 0
    → record_alert digest fresh now o s ≡ ok (i, t)
    → (j : Uuid) (e : AlertEvent) → find (has_id j) s.events ≡ some e
    → (f : AlertEvent) × (find (has_id j) t.events ≡ some f) × Grows e f
record_alert-Grows digest fresh now o s i t unused h j e there =
    let (key, seen, _, _, way) = record_alert-Recorded digest fresh now o s i t h in
    Recorded-Grows o key seen s fresh now i t unused way j e there

-- An occurrence that has no receipt yet leaves, under its incident key, one active alert, whose
-- identity is returned: on well-formed tables, with an identity from `uuid4` that no alert has.
pub record_alert_active :
    (digest : List Json → String) (fresh : Uuid) (now : ℕ) (o : Observation) (s : Store) (i : Uuid)
    (t : Store)
    → IsValid s
    → count (has_id fresh) s.events ≡ 0
    → find (has_occurrence_id o.occurrence_id) s.occurrences ≡ none
    → record_alert digest fresh now o s ≡ ok (i, t)
    → (key : String) × (incident_key digest o.condition ≡ ok key)
      × (count (is_active_for key) t.events ≡ 1)
      × ((e : AlertEvent) × (find (is_active_for key) t.events ≡ some e) × (e.alert_event_id ≡ i))
record_alert_active digest fresh now o s i t valid unused first h =
    let (key, seen, keyed, _, way) = record_alert-Recorded digest fresh now o s i t h in
    let (e, there, same) = Recorded-active o key seen s fresh now i t first way in
    let after = record_alert-IsValid digest fresh now o s i t valid unused h in
    (
      key,
      keyed,
      omega (
        arith,
        after.one_active key,
        count-pos_of_find (is_active_for key) (is_active_for key) t.events e there
            (find_sound (is_active_for key) t.events e there),
      ),
      (e, there, same),
    )

-- A replay of an occurrence, at any later time and also after the alert was resolved, returns the
-- alert of the receipt, opens nothing, and leaves the receipts, the audit trail and the identity,
-- status and counter of every alert as they are.
pub record_alert_replay :
    (digest : List Json → String) (fresh : Uuid) (now : ℕ) (o : Observation) (s : Store) (i : Uuid)
    (t : Store) (r : Occurrence)
    → find (has_occurrence_id o.occurrence_id) s.occurrences ≡ some r
    → record_alert digest fresh now o s ≡ ok (i, t)
    → (i ≡ r.alert_event_id)
      × (t.occurrences ≡ s.occurrences)
      × (t.history ≡ s.history)
      × (map tally t.events ≡ map tally s.events)
record_alert_replay digest fresh now o s i t r there h =
    let (key, seen, _, _, way) = record_alert-Recorded digest fresh now o s i t h in
    Recorded-replay o key seen s fresh now i t r there way
