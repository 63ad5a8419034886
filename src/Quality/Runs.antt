-- ===== src/Quality/Runs.antt =====
-- `DatasetQualityRun`, `run_id` and `logical_id` of src/quality/execution.py. `uuid5` makes an
-- identity from the JSON text of a list.
use pulse_data_platform.Base.{
  ℕ, String, Bool, true, not, ◌&&◌, ◌||◌, List, [], ◌∷◌, map, any, str_eq, ltb, is_blank, Outcome,
  ok, err, ◌>>=◌, if◌then◌else◌,
}
use pulse_data_platform.Alerts.Rows.{Stamp, aware, naive, Json, text, number, integer, Execution}
use pulse_data_platform.Alerts.Identity.{or_null}
use pulse_data_platform.Quality.Results.{QualityResult}

pub record DatasetQualityRun (V : Type 0) : Type 0 where
  pub dataset_name : String
  pub layer : String
  pub started_at_utc : ℕ
  pub completed_at_utc : ℕ
  pub results : List (QualityResult V)

-- The messages of the constructor.
pub data RunError : Type 0 where
  names_required naive_timestamps completed_early foreign_result duplicate_checks : RunError

-- `len({…}) == len(…)`
unfoldable pub is_distinct : List String → Bool
is_distinct [] = true
is_distinct (x ∷ xs) = let rest = is_distinct xs in not (any (str_eq x) xs) && rest

abbrev run_instant : Stamp → Outcome RunError ℕ
run_instant (aware t) = ok t
run_instant (naive t) = err naive_timestamps

-- A result of another dataset or layer.
abbrev is_foreign : {V : Type 0} → String → String → QualityResult V → Bool
is_foreign dataset layer r = not (str_eq r.dataset_name dataset && str_eq r.layer layer)

-- The checks that follow the conversion of the two timestamps.
unfoldable pub checked_run :
    {V : Type 0}
    → String
    → String
    → ℕ
    → ℕ
    → List (QualityResult V)
    → Outcome RunError (DatasetQualityRun V)
unfolding is_distinct
checked_run dataset layer start end rs =
    if ltb end start
    then err completed_early
    else if any (is_foreign dataset layer) rs
    then err foreign_result
    else if not (is_distinct (map (λ r. r.check_name) rs))
    then err duplicate_checks
    else ok (record {
      dataset_name = dataset;
      layer = layer;
      started_at_utc = start;
      completed_at_utc = end;
      results = rs;
    })

-- The constructor with its checks.
unfoldable pub dataset_quality_run :
    {V : Type 0}
    → String
    → String
    → Stamp
    → Stamp
    → List (QualityResult V)
    → Outcome RunError (DatasetQualityRun V)
unfolding checked_run
dataset_quality_run dataset layer started completed rs =
    if is_blank dataset || is_blank layer then err names_required else (do
      start ← run_instant started
      end ← run_instant completed
      checked_run dataset layer start end rs)

-- The list that `run_id` hashes: the attempt counts.
unfoldable pub run_key : Execution → String → String → List Json
run_key c dataset layer =
    text "pulse-quality-v1"
    ∷ text c.execution_source
    ∷ text c.execution_id
    ∷ or_null c.dag_id
    ∷ or_null c.airflow_run_id
    ∷ or_null c.task_id
    ∷ integer c.map_index
    ∷ number c.attempt_number
    ∷ text dataset
    ∷ text layer
    ∷ []

-- The list that `logical_id` hashes: the attempt does not count.
unfoldable pub logical_key : String → Execution → List String → List Json
logical_key namespace c parts =
    text namespace
    ∷ text c.execution_source
    ∷ text c.execution_id
    ∷ or_null c.dag_id
    ∷ or_null c.airflow_run_id
    ∷ or_null c.task_id
    ∷ integer c.map_index
    ∷ map text parts
