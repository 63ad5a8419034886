-- ===== src/Alerts/Replays.antt =====
-- Retries of `record_alert` of src/quality/alert_service.py: the same occurrence reported twice.
use pulse_data_platform.Base.{
  ℕ, ◌≡◌, refl, ◌∙◌, String, true, Option, some, List, arith, find, find-update, found_of_count,
  update, update-update, update_of_count, count, count-pos_of_find, eq_iff, ok, if◌then◌else◌,
}
use pulse_data_platform.Alerts.Rows.{
  Uuid, Json, Severity, Stamp, info, warning, critical, AlertEvent, AlertStatus, Occurrence, Store,
  is_resolved, has_id, is_active_for, has_occurrence_id,
}
use pulse_data_platform.Alerts.Identity.{incident_key}
use pulse_data_platform.Alerts.Recording.{
  Observation, accepted_stamp, worse, opened, receipt, refreshed, open_incident, report_again,
  record_keyed, record_alert,
}
use pulse_data_platform.Alerts.Recorded.{
  Recorded, opens, joins, ignores, refreshes, record_alert-Recorded,
}

-- What identifies an alert, its status and its counter.
abbrev pub tally : AlertEvent → Uuid × AlertStatus × ℕ
tally e = (e.alert_event_id, e.status, e.occurrence_count)

pub tally-refreshed :
    (o : Observation) (seen : ℕ) (e : AlertEvent) → tally (refreshed o seen 0 e) ≡ tally e
unfolding refreshed
tally-refreshed o seen e = ground arith

worse_again : (a b : Severity) → worse (worse a b) b ≡ worse a b
unfolding worse
worse_again info info = refl
worse_again info warning = refl
worse_again info critical = refl
worse_again warning info = refl
worse_again warning warning = refl
worse_again warning critical = refl
worse_again critical b = refl

-- The same evidence a second time changes nothing.
refreshed_again :
    (o : Observation) (seen n : ℕ) (e : AlertEvent)
    → refreshed o seen 0 (refreshed o seen n e) ≡ refreshed o seen n e
unfolding refreshed
refreshed_again o seen n e = ground (arith, worse_again e.severity o.severity)

worse_self : (a : Severity) (st : Stamp) (seen : ℕ) → accepted_stamp a st ≡ ok seen → worse a a ≡ a
unfolding worse accepted_stamp
worse_self info st seen h = absurd (ground arith)
worse_self warning st seen h = refl
worse_self critical st seen h = refl

opened_again :
    (i : Uuid) (o : Observation) (key : String) (seen : ℕ)
    → accepted_stamp o.severity o.seen_at ≡ ok seen
    → refreshed o seen 0 (opened i o key seen) ≡ opened i o key seen
unfolding refreshed opened
opened_again i o key seen h = ground (arith, worse_self o.severity o.seen_at seen h)

module _ (o : Observation) (key : String) (seen : ℕ) (t : Store) where
  -- A receipt under the same key, whose alert the evidence leaves as it is.
  record_keyed_fixed :
      (fresh : Uuid) (now : ℕ) (r : Occurrence) (e : AlertEvent)
      → r.incident_key ≡ key
      → find (has_id r.alert_event_id) t.events ≡ some e
      → update (has_id r.alert_event_id) (refreshed o seen 0) t.events ≡ t.events
      → record_keyed (some r) fresh now o key seen t ≡ ok (r.alert_event_id, t)
  unfolding record_keyed
  record_keyed_fixed fresh now r e same found fixed =
      rw (found, fixed) (ground (arith, eq_iff r.incident_key key))

module _ (digest : List Json → String) (fresh : Uuid) (now : ℕ) (o : Observation) (s : Store) where
  record_alert-eq-keyed :
      (key : String) (seen : ℕ) (f : Option Occurrence)
      → incident_key digest o.condition ≡ ok key
      → accepted_stamp o.severity o.seen_at ≡ ok seen
      → find (has_occurrence_id o.occurrence_id) s.occurrences ≡ f
      → record_alert digest fresh now o s ≡ record_keyed f fresh now o key seen s
  unfolding record_alert
  record_alert-eq-keyed key seen f keyed stamped found = rw (keyed, stamped, found)

module _ (digest : List Json → String) (o : Observation) (key : String) (seen : ℕ)
    (keyed : incident_key digest o.condition ≡ ok key)
    (stamped : accepted_stamp o.severity o.seen_at ≡ ok seen) (s : Store) (again : Uuid)
    (later : ℕ) where
  replay_fixed :
      (t : Store) (r : Occurrence) (e : AlertEvent)
      → find (has_occurrence_id o.occurrence_id) t.occurrences ≡ some r
      → r.incident_key ≡ key
      → find (has_id r.alert_event_id) t.events ≡ some e
      → update (has_id r.alert_event_id) (refreshed o seen 0) t.events ≡ t.events
      → record_alert digest again later o t ≡ ok (r.alert_event_id, t)
  replay_fixed t r e old same found fixed =
      record_alert-eq-keyed digest again later o t key seen (some r) keyed stamped old
      ∙ record_keyed_fixed o key seen t again later r e same found fixed

  replay_of_open :
      (fresh : Uuid) (now : ℕ)
      → count (has_id fresh) s.events ≡ 0
      → record_alert digest again later o (open_incident fresh now o key seen s)
        ≡ ok (fresh, open_incident fresh now o key seen s)
  unfolding receipt
  replay_of_open fresh now unused =
      replay_fixed (open_incident fresh now o key seen s) (receipt fresh o key seen)
        (opened fresh o key seen) (unfold open_incident in ground arith) refl
        (unfold open_incident opened in ground arith)
        (unfold open_incident opened in
          ground (
            arith,
            opened_again fresh o key seen stamped,
            update_of_count (has_id fresh) (refreshed o seen 0) s.events unused,
          ))

  replay_of_join :
      (e : AlertEvent)
      → find (is_active_for key) s.events ≡ some e
      → record_alert digest again later o (report_again e.alert_event_id o key seen s)
        ≡ ok (e.alert_event_id, report_again e.alert_event_id o key seen s)
  unfolding receipt
  replay_of_join e active =
      let i : Uuid = e.alert_event_id in
      let (x, there) =
        found_of_count (has_id i) s.events
          (count-pos_of_find (is_active_for key) (has_id i) s.events e active (ground arith)) in
      replay_fixed (report_again i o key seen s) (receipt i o key seen)
        (if has_id i x then refreshed o seen 1 x else x) (unfold report_again in ground arith) refl
        (unfold report_again refreshed in
          find-update (has_id i) (has_id i) (refreshed o seen 1) (λ y. refl) s.events x there)
        (unfold report_again in
          update-update (has_id i) (refreshed o seen 0) (refreshed o seen 1)
            (unfold refreshed in λ y. refl) (refreshed_again o seen 1) s.events)

  replay_of_ignored :
      (r : Occurrence) (e : AlertEvent)
      → find (has_occurrence_id o.occurrence_id) s.occurrences ≡ some r
      → r.incident_key ≡ key
      → find (has_id r.alert_event_id) s.events ≡ some e
      → is_resolved e.status ≡ true
      → record_alert digest again later o s ≡ ok (r.alert_event_id, s)
  unfolding record_keyed
  replay_of_ignored r e old same found done =
      record_alert-eq-keyed digest again later o s key seen (some r) keyed stamped old
      ∙ rw found (ground (arith, eq_iff r.incident_key key))

  replay_of_refresh :
      (r : Occurrence) (e : AlertEvent) (t : Store)
      → find (has_occurrence_id o.occurrence_id) s.occurrences ≡ some r
      → r.incident_key ≡ key
      → find (has_id r.alert_event_id) s.events ≡ some e
      → t ≡ record s { events = update (has_id r.alert_event_id) (refreshed o seen 0) s.events }
      → record_alert digest again later o t ≡ ok (r.alert_event_id, t)
  replay_of_refresh r e t old same found made =
      let i : Uuid = r.alert_event_id in
      rw made (
        replay_fixed (record s { events = update (has_id i) (refreshed o seen 0) s.events }) r
          (if has_id i e then refreshed o seen 0 e else e) old same
          (unfold refreshed in
            find-update (has_id i) (has_id i) (refreshed o seen 0) (λ y. refl) s.events e found)
          (update-update (has_id i) (refreshed o seen 0) (refreshed o seen 0)
            (unfold refreshed in λ y. refl) (refreshed_again o seen 0) s.events))

  replay_of_Recorded :
      (fresh : Uuid) (now : ℕ) (i : Uuid) (t : Store)
      → count (has_id fresh) s.events ≡ 0
      → Recorded fresh now o key seen s i t
      → record_alert digest again later o t ≡ ok (i, t)
  replay_of_Recorded fresh now i t unused (opens new absent who made) =
      rw (who, made) (replay_of_open fresh now unused)
  replay_of_Recorded fresh now i t unused (joins e new found who made) =
      rw (who, made) (replay_of_join e found)
  replay_of_Recorded fresh now i t unused (ignores r e old same found done who made) =
      rw (who, made) (replay_of_ignored r e old same found done)
  replay_of_Recorded fresh now i t unused (refreshes r e old same found live who made) =
      rw who (replay_of_refresh r e t old same found made)

-- A call of `record_alert` that is retried at once, whatever `uuid4` and the clock return then,
-- returns the same alert and changes no table. The first call needs an identity from `uuid4`
-- that no alert has.
pub record_alert_retry :
    (digest : List Json → String) (fresh again : Uuid) (now later : ℕ) (o : Observation) (s : Store)
    (i : Uuid) (t : Store)
    → count (has_id fresh) s.events ≡ 0
    → record_alert digest fresh now o s ≡ ok (i, t)
    → record_alert digest again later o t ≡ ok (i, t)
record_alert_retry digest fresh again now later o s i t unused h =
    let (key, seen, keyed, stamped, way) = record_alert-Recorded digest fresh now o s i t h in
    replay_of_Recorded digest o key seen keyed stamped s again later fresh now i t unused way
