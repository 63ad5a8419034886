-- ===== src/Alerts/Transitions.antt =====
-- What `change_status` of src/quality/alert_service.py does to well-formed tables.
use pulse_data_platform.Base.{
  ℕ, ◌≤◌, ◌≡◌, ◌↔◌, ◌≢◌, ◌⊎◌, refl, sym, subst, String, true, false, Option, none, some, List, ◌∷◌,
  arith, inl, inr, Bool-cases, Option-cases, find, find_sound, find-update, if◌then◌else◌, Outcome,
  err, update, count, All, All-update, All-find, count-update, count-update-le, count-pos_of_find,
  ==_iff, ok, strip, is_blank,
}
use pulse_data_platform.Alerts.Rows.{
  Uuid, AlertEvent, AlertStatus, open_status, acknowledged, resolved, other_status, Audit, Store,
  is_active, has_id, is_active_for,
}
use pulse_data_platform.Alerts.Identity.{
  AlertError, blank_operator, bad_target, alert_not_found, invalid_transition,
}
use pulse_data_platform.Alerts.Lifecycle.{
  validate_transition, ◌⟶◌, acknowledge, resolve_open, resolve_acknowledged,
  validate_transition_sound, validate_transition_complete,
}
use pulse_data_platform.Alerts.Recording.{audit}
use pulse_data_platform.Alerts.Changing.{is_target, transitioned, apply_change, change_status}
use pulse_data_platform.Alerts.Invariant.{IsValid, IsCounted, IsAudited, IsOrdered, newest_status}

-- What a call that returned has done.
pub record Changed (now : ℕ) (i : Uuid) (target : AlertStatus) (by : String)
    (remark : Option String) (s t : Store) : Type 0 where
  pub row : AlertEvent
  pub found : find (has_id i) s.events ≡ some row
  pub edge : row.status ⟶ target
  pub written : t ≡ record s {
    events = update (has_id i) (transitioned target (strip by) remark now) s.events;
    history = audit i (some row.status) target (strip by) remark now ∷ s.history;
  }

pub change_status-Changed :
    (now : ℕ) (i : Uuid) (target : AlertStatus) (by : String) (remark : Option String) (s t : Store)
    → change_status now i target by remark s ≡ ok t
    → Changed now i target by remark s t
unfolding change_status apply_change
change_status-Changed now i target by remark s t h =
    elim (Option-cases (find (has_id i) s.events)) [
      | inl missing ↦ absurd (ground arith)
      | inr (e, present) ↦ record {
        row = e;
        found = present;
        edge = validate_transition_sound e.status target (ground arith);
        written = ground arith;
      }
    ]

-- A transition sets the status and leaves the identity, the counter and the sightings alone.
transitioned_lem :
    (target : AlertStatus) (by : String) (remark : Option String) (now : ℕ) (x : AlertEvent)
    → let y = transitioned target by remark now x in
      (y.status ≡ target)
      × (y.alert_event_id ≡ x.alert_event_id)
      × (y.incident_key ≡ x.incident_key)
      × (y.occurrence_count ≡ x.occurrence_count)
      × (y.first_seen_at_utc ≡ x.first_seen_at_utc)
      × (y.last_seen_at_utc ≡ x.last_seen_at_utc)
unfolding transitioned
transitioned_lem acknowledged by remark now x = (refl, refl, refl, refl, refl, refl)
transitioned_lem _ by remark now x = (refl, refl, refl, refl, refl, refl)

-- An edge never makes an alert active that was not.
is_active-edge : {u v : AlertStatus} → u ⟶ v → is_active v ≡ true → is_active u ≡ true
unfolding is_active
is_active-edge acknowledge h = refl
is_active-edge resolve_open h = cc
is_active-edge resolve_acknowledged h = cc

module _ (now : ℕ) (i : Uuid) (target : AlertStatus) (by : String) (remark : Option String)
    (s : Store) (valid : IsValid s) (e : AlertEvent) (found : find (has_id i) s.events ≡ some e)
    (edge : e.status ⟶ target) where
  moved : List AlertEvent
  moved = update (has_id i) (transitioned target by remark now) s.events

  moved_history : List Audit
  moved_history = audit i (some e.status) target by remark now ∷ s.history

  -- The audit trail ends in the status of the row that was found.
  newest_is_previous : newest_status i s.history ≡ some e.status
  newest_is_previous =
      subst (λ j. newest_status j s.history ≡ some e.status)
        ((==_iff e.alert_event_id i).0 (find_sound (has_id i) s.events e found))
        (All-find (IsAudited s.history) (has_id i) s.events e valid.audited found)

  moved_ids : (j : Uuid) → count (has_id j) moved ≡ count (has_id j) s.events
  unfolding moved
  moved_ids j =
      count-update (has_id j) (has_id i) (transitioned target by remark now)
        (λ x _. ground (arith, transitioned_lem target by remark now x)) s.events

  moved_active : (k : String) → count (is_active_for k) moved ≤ count (is_active_for k) s.events
  unfolding moved
  moved_active k =
      count-update-le (IsAudited s.history) (is_active_for k) (has_id i)
        (transitioned target by remark now)
        (λ x audited this active.
          ground (
            arith,
            transitioned_lem target by remark now x,
            newest_is_previous,
            is_active-edge edge,
          ))
        s.events valid.audited

  moved-IsAudited : All (IsAudited moved_history) moved
  unfolding moved moved_history audit
  moved-IsAudited =
      All-update (IsAudited s.history) (IsAudited moved_history) (has_id i)
        (transitioned target by remark now)
        (λ x audited this. ground (arith, transitioned_lem target by remark now x))
        (λ x audited other. ground (arith)) s.events valid.audited

  moved-IsCounted : All (IsCounted s.occurrences) moved
  unfolding moved
  moved-IsCounted =
      All-update (IsCounted s.occurrences) (IsCounted s.occurrences) (has_id i)
        (transitioned target by remark now)
        (λ x h this. ground (arith, transitioned_lem target by remark now x)) (λ x h other. h)
        s.events valid.counted

  moved-IsOrdered : All IsOrdered moved
  unfolding moved
  moved-IsOrdered =
      All-update IsOrdered IsOrdered (has_id i) (transitioned target by remark now)
        (λ x h this. ground (arith, transitioned_lem target by remark now x)) (λ x h other. h)
        s.events valid.ordered

  moved-IsValid : IsValid (record s { events = moved; history = moved_history })
  unfolding moved_history audit
  moved-IsValid = record {
    one_active = λ k. omega (arith, moved_active k, valid.one_active k);
    one_event = λ j. rw moved_ids (valid.one_event j);
    one_receipt = valid.one_receipt;
    receipts_linked = λ j none_left. valid.receipts_linked j (rw moved_ids at none_left);
    history_linked = λ j none_left. ground (
      arith,
      moved_ids j,
      ==_iff i j,
      count-pos_of_find (has_id i) (has_id i) s.events e found
          (find_sound (has_id i) s.events e found),
      valid.history_linked j,
    );
    counted = moved-IsCounted;
    audited = moved-IsAudited;
    ordered = moved-IsOrdered;
    trail = (sym newest_is_previous, edge, valid.trail);
  }

-- The row of the alert has the target status.
find-transitioned :
    (target : AlertStatus) (by : String) (remark : Option String) (now : ℕ) (i : Uuid)
    (rows : List AlertEvent) (e : AlertEvent)
    → find (has_id i) rows ≡ some e
    → find (has_id i) (update (has_id i) (transitioned target by remark now) rows)
      ≡ some (transitioned target by remark now e)
find-transitioned target by remark now i rows e found =
    let own : has_id i e ≡ true = find_sound (has_id i) rows e found in
    subst
      (λ b.
        find (has_id i) (update (has_id i) (transitioned target by remark now) rows)
        ≡ some (if b then transitioned target by remark now e else e))
      own
      (find-update (has_id i) (has_id i) (transitioned target by remark now)
        (λ x. ground (arith, transitioned_lem target by remark now x)) rows e found)

-- A status change that returns, on well-formed tables, leaves them well formed; the alert was there
-- with a status that has an edge to the target, and has the target status now; the audit trail
-- gains one row, which goes from the one status to the other under the name of the operator; no
-- receipt changes, and no incident key gains an active alert.
pub change_status-IsValid :
    (now : ℕ) (i : Uuid) (target : AlertStatus) (by : String) (remark : Option String) (s t : Store)
    → IsValid s
    → change_status now i target by remark s ≡ ok t
    → IsValid t
      × ((e : AlertEvent) × (y : AlertEvent) × (find (has_id i) s.events ≡ some e)
          × (e.status ⟶ target)
          × (find (has_id i) t.events ≡ some y)
          × (y.status ≡ target)
          × (t.history ≡ audit i (some e.status) target (strip by) remark now ∷ s.history))
      × (t.occurrences ≡ s.occurrences)
      × ((k : String) → count (is_active_for k) t.events ≤ count (is_active_for k) s.events)
change_status-IsValid now i target by remark s t valid h =
    let done = change_status-Changed now i target by remark s t h in
    rw done.written (
      (unfold moved moved_history in
          moved-IsValid now i target (strip by) remark s valid done.row done.found done.edge),
      (
        done.row,
        transitioned target (strip by) remark now done.row,
        done.found,
        done.edge,
        find-transitioned target (strip by) remark now i s.events done.row done.found,
        (transitioned_lem target (strip by) remark now done.row).0,
        refl,
      ),
      refl,
      λ k.
          unfold moved in
          moved_active now i target (strip by) remark s valid done.row done.found done.edge k,
    )

is_target_of_edge : {u v : AlertStatus} → u ⟶ v → is_target v ≡ true
is_target_of_edge acknowledge = refl
is_target_of_edge resolve_open = refl
is_target_of_edge resolve_acknowledged = refl

operator_named :
    (now : ℕ) (i : Uuid) (target : AlertStatus) (by : String) (remark : Option String) (s t : Store)
    → change_status now i target by remark s ≡ ok t
    → is_blank by ≡ false
unfolding change_status
operator_named now i target by remark s t h = ground arith

change_status_returns :
    (now : ℕ) (i : Uuid) (target : AlertStatus) (by : String) (remark : Option String) (s : Store)
    (e : AlertEvent)
    → is_blank by ≡ false
    → find (has_id i) s.events ≡ some e
    → e.status ⟶ target
    → (t : Store) × (change_status now i target by remark s ≡ ok t)
unfolding change_status
change_status_returns now i target by remark s e named found edge = (
  record s {
    events = update (has_id i) (transitioned target (strip by) remark now) s.events;
    history = audit i (some e.status) target (strip by) remark now ∷ s.history;
  },
  ground (arith, is_target_of_edge edge, validate_transition_complete edge),
)

-- The five ways that a call ends, each with its condition.
pub data Answer (now : ℕ) (i : Uuid) (target : AlertStatus) (by : String) (remark : Option String)
    (s : Store) : Outcome AlertError Store → Type 0 where
  unnamed : is_blank by ≡ true → Answer now i target by remark s (err blank_operator)
  untargeted :
      is_blank by ≡ false
      → target ≢ acknowledged
      → target ≢ resolved
      → Answer now i target by remark s (err bad_target)
  missing :
      is_blank by ≡ false
      → (target ≡ acknowledged) ⊎ (target ≡ resolved)
      → find (has_id i) s.events ≡ none
      → Answer now i target by remark s (err alert_not_found)
  forbidden :
      (e : AlertEvent)
      → is_blank by ≡ false
      → (target ≡ acknowledged) ⊎ (target ≡ resolved)
      → find (has_id i) s.events ≡ some e
      → ¬ (e.status ⟶ target)
      → Answer now i target by remark s (err invalid_transition)
  changed :
      (e : AlertEvent) (t : Store)
      → is_blank by ≡ false
      → find (has_id i) s.events ≡ some e
      → e.status ⟶ target
      → Answer now i target by remark s (ok t)

target_of_test : (t : AlertStatus) → is_target t ≡ true → (t ≡ acknowledged) ⊎ (t ≡ resolved)
target_of_test open_status h = absurd (cc)
target_of_test acknowledged h = inl refl
target_of_test resolved h = inr refl
target_of_test (other_status x) h = absurd (cc)

edge_or_not :
    (u v : AlertStatus)
    → (u ⟶ v) ⊎ ((¬ (u ⟶ v)) × (validate_transition u v ≡ err invalid_transition))
unfolding validate_transition
edge_or_not open_status open_status = inr (λ m. cc (validate_transition_complete m), refl)
edge_or_not open_status acknowledged = inl acknowledge
edge_or_not open_status resolved = inl resolve_open
edge_or_not open_status (other_status x) = inr (λ m. cc (validate_transition_complete m), refl)
edge_or_not acknowledged open_status = inr (λ m. cc (validate_transition_complete m), refl)
edge_or_not acknowledged acknowledged = inr (λ m. cc (validate_transition_complete m), refl)
edge_or_not acknowledged resolved = inl resolve_acknowledged
edge_or_not acknowledged (other_status x) = inr (λ m. cc (validate_transition_complete m), refl)
edge_or_not resolved t = inr (λ m. cc (validate_transition_complete m), refl)
edge_or_not (other_status x) t = inr (λ m. cc (validate_transition_complete m), refl)

change_status-Answer :
    (now : ℕ) (i : Uuid) (target : AlertStatus) (by : String) (remark : Option String) (s : Store)
    → Answer now i target by remark s (change_status now i target by remark s)
unfolding change_status apply_change
change_status-Answer now i target by remark s = elim (Bool-cases (is_blank by)) [
  | inl blank ↦ rw blank (unnamed blank)
  | inr named ↦ elim (Bool-cases (is_target target)) [
    | inr other ↦
        rw (named, other)
          (untargeted named (λ e. let same : is_target target ≡ true = rw e refl in cc)
            (λ e. let same : is_target target ≡ true = rw e refl in cc))
    | inl aimed ↦
        let kind = target_of_test target aimed in
        elim (Option-cases (find (has_id i) s.events)) [
          | inl absent ↦ rw (named, aimed, absent) (missing named kind absent)
          | inr (e, found) ↦ elim (edge_or_not e.status target) [
            | inl edge ↦
                rw (named, aimed, found, validate_transition_complete edge)
                  (changed e _ named found edge)
            | inr (none_there, refused) ↦
                rw (named, aimed, found, refused) (forbidden e named kind found none_there)
          ]
        ]
  ]
]

-- The call returns exactly if the operator is named, the alert is there and its status has an edge
-- to the target. Otherwise it raises the error of the first test that fails: the operator is blank,
-- the target is neither ACKNOWLEDGED nor RESOLVED, the alert is not there, or its status has no
-- edge to the target.
pub change_status_iff :
    (now : ℕ) (i : Uuid) (target : AlertStatus) (by : String) (remark : Option String) (s : Store)
    → (((t : Store) × (change_status now i target by remark s ≡ ok t)) ↔ (
        (is_blank by ≡ false)
        × ((e : AlertEvent) × (find (has_id i) s.events ≡ some e) × (e.status ⟶ target))))
      × Answer now i target by remark s (change_status now i target by remark s)
change_status_iff now i target by remark s = (
  (
    λ (t, h).
        let done = change_status-Changed now i target by remark s t h in
        (operator_named now i target by remark s t h, (done.row, done.found, done.edge)),
    λ (named, (e, found, edge)). change_status_returns now i target by remark s e named found edge,
  ),
  change_status-Answer now i target by remark s,
)
