-- ===== src/Alerts/Identity.antt =====
-- `incident_key` of src/quality/alert_service.py. `digest` is "v1:" and the hexadecimal SHA-256 of
-- the canonical JSON text of the payload: json and hashlib compute it. The sorting of keys that makes
-- the text canonical is `canonical`.
use pulse_data_platform.Base.{
  String, Bool, true, false, not, ◌&&◌, ◌||◌, Option, none, some, List, [], ◌∷◌, Outcome, ok, err,
  is_blank, is_empty, or_default, if◌then◌else◌,
}
use pulse_data_platform.Alerts.Canonical.{canonical}
use pulse_data_platform.Alerts.Rows.{
  SourceType, quality_failure, anomaly, other_source, Json, null, text, dict,
}

-- The messages that `AlertError` carries, and the failure of reading a missing row.
pub data AlertError : Type 0 where
  unknown_source identity_required check_required : AlertError
  bad_severity_or_stamp wrong_incident : AlertError
  blank_operator bad_target alert_not_found invalid_transition : AlertError
  bad_listing missing_row : AlertError

-- What identifies the condition that an alert is about.
pub record Condition : Type 0 where
  pub source_type : SourceType
  pub dataset_name : String
  pub layer : String
  pub metric_name : String
  pub check_name : Option String
  pub dimensions : Option (List (String × String))

-- `not check_name`
abbrev pub lacks_text : Option String → Bool
lacks_text none = true
lacks_text (some s) = is_empty s

abbrev pub or_null : Option String → Json
or_null none = null
or_null (some s) = text s

-- `source_type in ("QUALITY_FAILURE", "ANOMALY")`
abbrev pub is_known : SourceType → Bool
is_known quality_failure = true
is_known anomaly = true
is_known (other_source s) = false

abbrev pub is_quality : SourceType → Bool
is_quality quality_failure = true
is_quality _ = false

abbrev pub source_text : SourceType → String
source_text quality_failure = "QUALITY_FAILURE"
source_text anomaly = "ANOMALY"
source_text (other_source s) = s

-- The list that is hashed: the check name counts for quality failures alone, and the keys of the
-- dimensions are sorted.
unfoldable pub payload : Condition → List Json
payload c =
    text "pulse-incident-v1"
    ∷ text (source_text c.source_type)
    ∷ text c.dataset_name
    ∷ text c.layer
    ∷ text c.metric_name
    ∷ (if is_quality c.source_type then or_null c.check_name else null)
    ∷ dict (canonical (or_default c.dimensions []))
    ∷ []

module _ (digest : List Json → String) where
  unfoldable pub incident_key : Condition → Outcome AlertError String
  incident_key c =
      if not (is_known c.source_type)
      then err unknown_source
      else if is_blank c.dataset_name || is_blank c.layer || is_blank c.metric_name
      then err identity_required
      else if is_quality c.source_type && lacks_text c.check_name
      then err check_required
      else ok (digest (payload c))
