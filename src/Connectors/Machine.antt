-- ===== src/Connectors/Machine.antt =====
-- The calls of `ConnectorStateStore` of src/onboarding/connector_state.py in sequence, and the
-- state machine of one connector that they are meant to run.
use pulse_data_platform.Base.{
  ℕ, String, Bool, ◌&&◌, Option, none, some, List, [], ◌∷◌, str_eq, Outcome, ok, err, if◌then◌else◌,
}
use pulse_data_platform.Alerts.Rows.{Stamp, aware, naive}
use pulse_data_platform.Connectors.State.{
  ConnectorState, ConnectorTables, TimestampError, attempted, failed, succeeded, record_attempt,
  record_failure, record_success,
}

-- The calls that change the state, of any connector.
pub data ConnectorCall : Type 0 where
  attempt_call : String → String → Stamp → ConnectorCall
  failure_call : String → String → String → String → ConnectorCall
  success_call :
      String → String → Stamp → Option Stamp → ℕ → List (String × List String) → ConnectorCall

-- A call that raises leaves the tables as they are.
abbrev pub or_unchanged : ConnectorTables → Outcome TimestampError ConnectorTables → ConnectorTables
or_unchanged m (ok t) = t
or_unchanged m (err e) = m

module _ (dumps : List String → String) where
  unfoldable pub run_call : ConnectorCall → ConnectorTables → ConnectorTables
  run_call (attempt_call b s at) m = or_unchanged m (record_attempt b s at m)
  run_call (failure_call b s error health) m = record_failure b s error health m
  run_call (success_call b s at checkpoint n ps) m =
      or_unchanged m (record_success dumps b s at checkpoint n ps m)

  unfoldable pub run_calls : List ConnectorCall → ConnectorTables → ConnectorTables
  run_calls [] m = m
  run_calls (c ∷ cs) m = run_calls cs (run_call c m)

-- What a call does to the connector that it names.
unfoldable pub effect : ConnectorCall → ConnectorState → ConnectorState
effect (attempt_call b s (aware t)) r = attempted t r
effect (attempt_call b s (naive t)) r = r
effect (failure_call b s error health) r = failed error health r
effect (success_call b s (aware t) none n ps) r = succeeded t none n r
effect (success_call b s (aware t) (some (aware c)) n ps) r = succeeded t (some c) n r
effect (success_call b s (aware t) (some (naive c)) n ps) r = r
effect (success_call b s (naive t) checkpoint n ps) r = r

abbrev pub names_connector : String → String → ConnectorCall → Bool
names_connector b s (attempt_call x y _) = str_eq x b && str_eq y s
names_connector b s (failure_call x y _ _) = str_eq x b && str_eq y s
names_connector b s (success_call x y _ _ _ _) = str_eq x b && str_eq y s

-- The machine of the connector: the calls of other connectors pass by.
unfoldable pub effects : String → String → List ConnectorCall → ConnectorState → ConnectorState
effects b s [] r = r
effects b s (c ∷ cs) r = effects b s cs (if names_connector b s c then effect c r else r)
