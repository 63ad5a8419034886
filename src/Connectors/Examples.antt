-- ===== src/Connectors/Examples.antt =====
-- Witnesses for the theorems about connectors: two connectors, a failure and a success.
use pulse_data_platform.Base.{
  ◌≡◌, refl, none, some, List, [], ◌∷◌, any, str_eq, ok, err, String, if◌then◌else◌,
}
use pulse_data_platform.Base.Sorting.{sort_by}
use pulse_data_platform.Base.Strict.{not_after, text_less}
use pulse_data_platform.Alerts.Rows.{aware, naive}
use pulse_data_platform.Connectors.State.{
  ConnectorState, ConnectorTables, get, record_attempt, record_failure, record_success,
  projection_ids, naive_timestamp, upsert_state, succeeded, upsert_projections, utc_text,
}
use pulse_data_platform.Connectors.Machine.{
  ConnectorCall, attempt_call, failure_call, success_call, run_call, run_calls, effects,
}
use pulse_data_platform.Connectors.Refinement.{run_calls_refines, run_calls_checkpoint}
use pulse_data_platform.Connectors.Projections.{projection_ids_written}

-- The two texts that the examples write and read.
abbrev dumps : List String → String
dumps [] = "[]"
dumps (x ∷ xs) = "[\"e1\", \"e2\"]"

abbrev loads : String → List String
loads s = if str_eq s "[]" then [] else "e1" ∷ "e2" ∷ []

abbrev empty : ConnectorTables
empty = record { states = []; projections = [] }

abbrev calls : List ConnectorCall
calls =
    attempt_call "acme" "shop" (aware 1)
    ∷ success_call "acme" "shop" (aware 2) (some (aware 1)) 3 []
    ∷ attempt_call "other" "shop" (aware 3)
    ∷ failure_call "acme" "shop" "timeout" "unhealthy"
    ∷ []

abbrev later : List ConnectorCall
later = failure_call "acme" "shop" "timeout" "unhealthy" ∷ []

-- What the first connector is left with: its checkpoint, and the error.
abbrev acme : ConnectorState
acme = record {
  business_id = "acme";
  source_id = "shop";
  last_attempted_at_utc = some 2;
  last_successful_at_utc = some 2;
  checkpoint_utc = some 1;
  records_extracted = 3;
  latest_error = some "timeout";
  health = "unhealthy";
}

calls_test : get "acme" "shop" (run_calls dumps calls empty) ≡ acme
unfolding get run_calls run_call record_failure record_attempt record_success
calls_test = refl

naive_test : record_attempt "acme" "shop" (naive 1) empty ≡ err naive_timestamp
unfolding record_attempt utc_text
naive_test = refl

abbrev done : ConnectorTables
done = record {
  states = upsert_state "acme" "shop" (succeeded 2 none 1) [];
  projections = upsert_projections dumps "acme" "shop" (("A-1", "e2" ∷ "e1" ∷ []) ∷ []) [];
}

success_test :
    record_success dumps "acme" "shop" (aware 2) none 1 (("A-1", "e2" ∷ "e1" ∷ []) ∷ []) empty
    ≡ ok done
unfolding record_success
success_test = refl

projection_test : projection_ids loads "acme" "shop" "A-1" done ≡ "e1" ∷ "e2" ∷ []
unfolding projection_ids upsert_projections sort_by text_less
projection_test = refl

run_calls_refines_example :
    get "acme" "shop" (run_calls dumps calls empty)
    ≡ effects "acme" "shop" calls (get "acme" "shop" empty)
run_calls_refines_example = run_calls_refines "acme" "shop" dumps calls empty

run_calls_checkpoint_example :
    (get "acme" "shop" (run_calls dumps later (run_calls dumps calls empty))).checkpoint_utc
    ≡ (get "acme" "shop" (run_calls dumps calls empty)).checkpoint_utc
run_calls_checkpoint_example =
    run_calls_checkpoint "acme" "shop" dumps later (run_calls dumps calls empty) refl

read_test :
    loads (dumps (sort_by (not_after text_less) ("e2" ∷ "e1" ∷ [])))
    ≡ sort_by (not_after text_less) ("e2" ∷ "e1" ∷ [])
unfolding sort_by text_less
read_test = refl

projection_ids_written_example :
    any (str_eq "e1") (projection_ids loads "acme" "shop" "A-1" done)
    ≡ any (str_eq "e1") ("e2" ∷ "e1" ∷ [])
projection_ids_written_example =
    projection_ids_written dumps loads "acme" "shop" (aware 2) none 1 [] [] "A-1" ("e2" ∷ "e1" ∷ [])
      empty done refl read_test success_test "e1"
