-- ===== src/Alerts/Lifecycle.antt =====
-- `validate_transition` of src/quality/alert_service.py, and the state machine that it guards.
use pulse_data_platform.Base.{◌≡◌, refl, arith, Outcome, ok, err}
use pulse_data_platform.Alerts.Rows.{AlertStatus, open_status, acknowledged, resolved, other_status}
use pulse_data_platform.Alerts.Identity.{AlertError, invalid_transition}

unfoldable pub validate_transition : AlertStatus → AlertStatus → Outcome AlertError (Unit {0})
validate_transition open_status acknowledged = ok tt
validate_transition open_status resolved = ok tt
validate_transition acknowledged resolved = ok tt
validate_transition _ _ = err invalid_transition

-- The edges of the lifecycle.
infix 40 ◌⟶◌
pub data ◌⟶◌ : AlertStatus → AlertStatus → Type 0 where
  acknowledge : open_status ⟶ acknowledged
  resolve_open : open_status ⟶ resolved
  resolve_acknowledged : acknowledged ⟶ resolved

pub validate_transition_sound : (s t : AlertStatus) → validate_transition s t ≡ ok tt → s ⟶ t
unfolding validate_transition
validate_transition_sound open_status open_status h = ground arith
validate_transition_sound open_status acknowledged h = acknowledge
validate_transition_sound open_status resolved h = resolve_open
validate_transition_sound open_status (other_status x) h = ground arith
validate_transition_sound acknowledged open_status h = ground arith
validate_transition_sound acknowledged acknowledged h = ground arith
validate_transition_sound acknowledged resolved h = resolve_acknowledged
validate_transition_sound acknowledged (other_status x) h = ground arith
validate_transition_sound resolved t h = ground arith
validate_transition_sound (other_status x) t h = ground arith

pub validate_transition_complete : {s t : AlertStatus} → s ⟶ t → validate_transition s t ≡ ok tt
unfolding validate_transition
validate_transition_complete acknowledge = refl
validate_transition_complete resolve_open = refl
validate_transition_complete resolve_acknowledged = refl
