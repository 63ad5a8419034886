-- ===== src/Alerts/Changing.antt =====
-- `change_status`, `acknowledge_alert` and `resolve_alert` of src/quality/alert_service.py. An
-- error rolls the transaction back, so it carries no tables. `now` is `clock_timestamp()`.
use pulse_data_platform.Base.{
  ℕ, String, Bool, true, false, Option, none, some, ◌∷◌, Outcome, ok, err, ◌>>=◌, find, update, not,
  is_blank, strip, if◌then◌else◌,
}
use pulse_data_platform.Alerts.Rows.{
  Uuid, AlertStatus, acknowledged, resolved, AlertEvent, Store, has_id,
}
use pulse_data_platform.Alerts.Identity.{AlertError, blank_operator, bad_target, alert_not_found}
use pulse_data_platform.Alerts.Lifecycle.{validate_transition}
use pulse_data_platform.Alerts.Recording.{audit}

-- `target in ("ACKNOWLEDGED", "RESOLVED")`
abbrev pub is_target : AlertStatus → Bool
is_target acknowledged = true
is_target resolved = true
is_target _ = false

-- The two UPDATE statements.
unfoldable pub transitioned : AlertStatus → String → Option String → ℕ → AlertEvent → AlertEvent
transitioned acknowledged by _ now e = record e {
  status = acknowledged;
  acknowledged_at_utc = some now;
  acknowledged_by = some by;
}
transitioned target by note now e = record e {
  status = target;
  resolved_at_utc = some now;
  resolved_by = some by;
  resolution_note = note;
}

unfoldable pub apply_change :
    Option AlertEvent
    → ℕ
    → Uuid
    → AlertStatus
    → String
    → Option String
    → Store
    → Outcome AlertError Store
unfolding transitioned validate_transition
apply_change none _ _ _ _ _ _ = err alert_not_found
apply_change (some e) now identity target by note s = do
  _ ← validate_transition e.status target
  ok (record s {
    events = update (has_id identity) (transitioned target by note now) s.events;
    history = audit identity (some e.status) target by note now ∷ s.history;
  })

unfoldable pub change_status :
    ℕ → Uuid → AlertStatus → String → Option String → Store → Outcome AlertError Store
unfolding apply_change
change_status now identity target by note s =
    if is_blank by
    then err blank_operator
    else if not (is_target target)
    then err bad_target
    else apply_change (find (has_id identity) s.events) now identity target (strip by) note s

unfoldable pub acknowledge_alert : ℕ → Uuid → String → Store → Outcome AlertError Store
unfolding change_status
acknowledge_alert now identity by s = change_status now identity acknowledged by none s

unfoldable pub resolve_alert : ℕ → Uuid → String → Option String → Store → Outcome AlertError Store
unfolding change_status
resolve_alert now identity by note s = change_status now identity resolved by note s
