-- ===== src/Retention/Settings.antt =====
-- `RetentionConfig.from_environ` of src/quality/retention.py. `int` is Python's conversion of a
-- text, `none` where it raises.
use pulse_data_platform.Base.{
  ℕ, ℤ, pos, negsuc, ◌&&◌, String, Option, none, some, List, Outcome, ok, err, leb, if◌then◌else◌,
}
use pulse_data_platform.Delivery.Settings.{variable}
use pulse_data_platform.Retention.Rows.{RetentionError, days_not_an_integer, days_out_of_range}

unfoldable pub days_of : Option ℤ → Outcome RetentionError ℕ
days_of none = err days_not_an_integer
days_of (some (negsuc n)) = err days_out_of_range
days_of (some (pos n)) = if leb 1 n && leb n 3650 then ok n else err days_out_of_range

-- The default is the text of 90, which `int` reads back.
abbrev read_days : (String → Option ℤ) → Option String → Option ℤ
read_days int none = some (pos 90)
read_days int (some raw) = int raw

unfoldable pub retention_days_of :
    (String → Option ℤ) → List (String × String) → Outcome RetentionError ℕ
unfolding days_of variable
retention_days_of int env = days_of (read_days int (variable "MONITORING_RETENTION_DAYS" env))
