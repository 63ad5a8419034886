-- ===== src/Quality/Results.antt =====
-- `QualityResult`, `summarize` and `should_block` of src/quality/models.py. `V` holds the numbers
-- and texts that a check observes and expects.
use pulse_data_platform.Base.{
  ℕ, String, Bool, true, false, ◌&&◌, ◌||◌, List, count, length, ltb, if◌then◌else◌,
}
use pulse_data_platform.Alerts.Rows.{Severity}
use pulse_data_platform.Alerts.Recording.{is_critical}

pub data Status : Type 0 where
  pass warn fail : Status

-- `measures` stands for the members of `CheckDetails` besides the message.
pub record CheckDetails (V : Type 0) : Type 0 where
  pub message : String
  pub measures : V

pub record QualityResult (V : Type 0) : Type 0 where
  pub check_name : String
  pub dataset_name : String
  pub layer : String
  pub status : Status
  pub severity : Severity
  pub metric_name : String
  pub observed_value : V
  pub expected_value : V
  pub checked_at_utc : ℕ
  pub details : CheckDetails V

pub record QualitySummary : Type 0 where
  pub total_checks : ℕ
  pub passed : ℕ
  pub warnings : ℕ
  pub failed : ℕ
  pub critical_failures : ℕ
  pub overall_status : Status

abbrev pub is_pass : Status → Bool
is_pass pass = true
is_pass _ = false

abbrev pub is_warn : Status → Bool
is_warn warn = true
is_warn _ = false

abbrev pub is_fail : Status → Bool
is_fail fail = true
is_fail _ = false

-- `r.status == Status.FAIL and r.severity == Severity.CRITICAL`
abbrev pub is_critical_failure : {V : Type 0} → QualityResult V → Bool
is_critical_failure r = is_fail r.status && is_critical r.severity

unfoldable pub summarize : {V : Type 0} → List (QualityResult V) → QualitySummary
summarize rs =
    let passed = count (λ r. is_pass r.status) rs in
    let warnings = count (λ r. is_warn r.status) rs in
    let failed = count (λ r. is_fail r.status) rs in
    let critical = count (λ r. is_critical_failure r) rs in
    record {
      total_checks = length rs;
      passed = passed;
      warnings = warnings;
      failed = failed;
      critical_failures = critical;
      overall_status =
          if ltb 0 critical then fail else if ltb 0 warnings || ltb 0 failed then warn else pass;
    }

unfoldable pub should_block : {V : Type 0} → List (QualityResult V) → Bool
unfolding summarize
should_block rs = ltb 0 (summarize rs).critical_failures
