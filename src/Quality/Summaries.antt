-- ===== src/Quality/Summaries.antt =====
-- What `summarize` of src/quality/models.py counts: the CHECK constraints of
-- monitoring.quality_runs (src/quality/monitoring.sql).
use pulse_data_platform.Base.{
  ◌+◌, ◌≤◌, ◌≡◌, refl, List, [], ◌∷◌, arith, count, length, ltb, if◌then◌else◌,
}
use pulse_data_platform.Quality.Results.{
  Status, pass, warn, fail, QualityResult, QualitySummary, is_pass, is_warn, is_fail,
  is_critical_failure, summarize, should_block,
}

one_status :
    (s : Status)
    → (if is_pass s then 1 else 0) + ((if is_warn s then 1 else 0) + (if is_fail s then 1 else 0))
      ≡ 1
one_status pass = refl
one_status warn = refl
one_status fail = refl

status_counts :
    {V : Type 0} (rs : List (QualityResult V))
    → length rs
      ≡ count (λ r. is_pass r.status) rs
        + (count (λ r. is_warn r.status) rs + count (λ r. is_fail r.status) rs)
status_counts [] = refl
status_counts (r ∷ rs) = omega (arith, one_status r.status, status_counts rs)

critical_counts :
    {V : Type 0} (rs : List (QualityResult V))
    → count (λ r. is_critical_failure r) rs ≤ count (λ r. is_fail r.status) rs
critical_counts [] = omega arith
critical_counts (r ∷ rs) = ground (arith, critical_counts rs)

-- The CASE of the table's last constraint.
abbrev pub stored_status : QualitySummary → Status
stored_status s =
    if ltb 0 s.critical_failures then fail else if ltb 0 (s.warnings + s.failed) then warn else pass

-- A summary satisfies the constraints of the table: the checks are those that passed, warned and
-- failed; the critical failures are among the failures; the overall status is the one that the
-- constraint computes; and the run is blocked exactly if there is a critical failure.
pub summarize_constraints :
    {V : Type 0} (rs : List (QualityResult V))
    → let s = summarize rs in
      (s.total_checks ≡ s.passed + (s.warnings + s.failed))
      × (s.critical_failures ≤ s.failed)
      × (s.overall_status ≡ stored_status s)
      × (should_block rs ≡ ltb 0 s.critical_failures)
unfolding summarize should_block
summarize_constraints rs = (status_counts rs, critical_counts rs, ground arith, refl)
