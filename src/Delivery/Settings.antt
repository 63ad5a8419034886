-- ===== src/Delivery/Settings.antt =====
-- `_integer` and `DeliveryConfig.from_environ` of src/quality/delivery.py. `int` is Python's
-- conversion of a text, `none` where it raises; `lower` is `str.lower`.
use pulse_data_platform.Base.{
  ℕ, ℤ, pos, negsuc, ◌≤◌, ◌≡◌, ◌≢◌, String, false, not, ◌&&◌, Option, none, some, List, [], ◌∷◌,
  arith, Outcome, ok, err, ◌>>=◌, >>=-eq-ok, str_eq, eq_iff, Bool-cases, inl, inr, ◌==◌, leb,
  is_empty, strip, or_default, if◌then◌else◌,
}

-- The messages of `DeliveryError`; the first two name the variable.
pub data DeliveryError : Type 0 where
  not_an_integer out_of_range : String → DeliveryError
  unknown_provider blank_destination recurrence_of_one : DeliveryError
  provider_unavailable bad_limit bad_statuses : DeliveryError
  delivery_not_found not_latest_failed not_eligible : DeliveryError
  -- `PersistenceError`
  completion_failed : DeliveryError

pub record DeliveryConfig : Type 0 where
  pub provider : String
  pub destination_key : String
  pub max_attempts : ℕ
  pub retry_delay_minutes : ℕ
  pub critical_escalation_minutes : ℕ
  pub recurrence_threshold : ℕ

-- `environment.get(name)`
unfoldable pub variable : String → List (String × String) → Option String
variable name [] = none
variable name ((k, v) ∷ env) =
    let rest = variable name env in if str_eq k name then some v else rest

abbrev within : ℕ → ℕ → ℤ → Option ℕ
within low high (pos n) = if leb low n && leb n high then some n else none
within low high (negsuc n) = none

abbrev in_range : String → Option ℕ → Outcome DeliveryError ℕ
in_range name none = err (out_of_range name)
in_range name (some n) = ok n

unfoldable pub integer_of : String → ℕ → ℕ → Option ℤ → Outcome DeliveryError ℕ
integer_of name low high none = err (not_an_integer name)
integer_of name low high (some z) = in_range name (within low high z)

-- A default is a number of the source, whose text `int` reads back.
abbrev read : (String → Option ℤ) → ℕ → Option String → Option ℤ
read int default none = some (pos default)
read int default (some raw) = int raw

module _ (int : String → Option ℤ) (lower : String → String) (env : List (String × String)) where
  unfoldable pub integer : String → ℕ → ℕ → ℕ → Outcome DeliveryError ℕ
  unfolding integer_of variable
  integer name default low high = integer_of name low high (read int default (variable name env))

  -- The four numbers, in the order in which they are read.
  unfoldable pub read_numbers : String → String → Outcome DeliveryError DeliveryConfig
  read_numbers provider destination = do
    threshold ← integer "ALERT_RECURRENCE_THRESHOLD" 0 0 1_000_000
    if threshold == 1 then err recurrence_of_one else do
      attempts ← integer "ALERT_DELIVERY_MAX_ATTEMPTS" 3 1 10
      retry ← integer "ALERT_DELIVERY_RETRY_MINUTES" 5 0 1440
      escalate ← integer "ALERT_CRITICAL_ESCALATION_MINUTES" 60 0 43200
      ok (record {
        provider = provider;
        destination_key = destination;
        max_attempts = attempts;
        retry_delay_minutes = retry;
        critical_escalation_minutes = escalate;
        recurrence_threshold = threshold;
      })

  unfoldable pub configured_provider : String
  unfolding variable
  configured_provider = lower (strip (or_default (variable "ALERT_DELIVERY_PROVIDER" env) "log"))

  unfoldable pub configured_destination : String
  unfolding variable
  configured_destination =
      strip (or_default (variable "ALERT_DELIVERY_DESTINATION_KEY" env) "local-log")

  unfoldable pub from_environ : Outcome DeliveryError DeliveryConfig
  from_environ =
      if not (str_eq configured_provider "log")
      then err unknown_provider
      else if is_empty configured_destination
      then err blank_destination
      else read_numbers configured_provider configured_destination

-- The ranges that a configuration from the environment keeps.
pub record IsConfig (c : DeliveryConfig) : Type 0 where
  pub provider : c.provider ≡ "log"
  pub destination : is_empty c.destination_key ≡ false
  pub attempts_low : 1 ≤ c.max_attempts
  pub attempts_high : c.max_attempts ≤ 10
  pub retry : c.retry_delay_minutes ≤ 1440
  pub escalate : c.critical_escalation_minutes ≤ 43200
  pub recurrence : c.recurrence_threshold ≤ 1_000_000
  pub recurrence_not_one : c.recurrence_threshold ≢ 1

integer_of_bounds :
    (name : String) (low high : ℕ) (z : Option ℤ) (n : ℕ)
    → integer_of name low high z ≡ ok n
    → (low ≤ n) × (n ≤ high)
unfolding integer_of
integer_of_bounds name low high none n h = absurd (cc)
integer_of_bounds name low high (some (pos k)) n h = ground arith
integer_of_bounds name low high (some (negsuc k)) n h = absurd (cc)

module _ (int : String → Option ℤ) (lower : String → String) (env : List (String × String)) where
  integer_bounds :
      (name : String) (default low high n : ℕ)
      → integer int lower env name default low high ≡ ok n
      → (low ≤ n) × (n ≤ high)
  unfolding integer
  integer_bounds name default low high n h =
      integer_of_bounds name low high (read int default (variable name env)) n h

  read_numbers-IsConfig :
      (provider destination : String) (c : DeliveryConfig)
      → provider ≡ "log"
      → is_empty destination ≡ false
      → read_numbers int lower env provider destination ≡ ok c
      → IsConfig c
  unfolding read_numbers
  read_numbers-IsConfig provider destination c hp hd h =
      let (threshold, ht, h1) =
        >>=-eq-ok (integer int lower env "ALERT_RECURRENCE_THRESHOLD" 0 0 1_000_000) _ h in
      elim (Bool-cases (threshold == 1)) [
        | inl one ↦ absurd (ground arith)
        | inr more ↦
            let (attempts, ha, h2) =
              >>=-eq-ok (integer int lower env "ALERT_DELIVERY_MAX_ATTEMPTS" 3 1 10) _
                (rw more at h1) in
            let (retry, hr, h3) =
              >>=-eq-ok (integer int lower env "ALERT_DELIVERY_RETRY_MINUTES" 5 0 1440) _ h2 in
            let (escalate, he, h4) =
              >>=-eq-ok (integer int lower env "ALERT_CRITICAL_ESCALATION_MINUTES" 60 0 43200) _
                h3 in
            let bt = integer_bounds "ALERT_RECURRENCE_THRESHOLD" 0 0 1_000_000 threshold ht in
            let ba = integer_bounds "ALERT_DELIVERY_MAX_ATTEMPTS" 3 1 10 attempts ha in
            let br = integer_bounds "ALERT_DELIVERY_RETRY_MINUTES" 5 0 1440 retry hr in
            let be = integer_bounds "ALERT_CRITICAL_ESCALATION_MINUTES" 60 0 43200 escalate he in
            record {
              provider = ground arith;
              destination = ground arith;
              attempts_low = ground arith;
              attempts_high = ground arith;
              retry = ground arith;
              escalate = ground arith;
              recurrence = ground arith;
              recurrence_not_one = ground arith;
            }
      ]

  -- A configuration that is read from the environment, whatever the variables hold, has the log
  -- provider, a destination, and every number in its range; a recurrence threshold is not 1.
  pub from_environ-IsConfig : (c : DeliveryConfig) → from_environ int lower env ≡ ok c → IsConfig c
  unfolding from_environ
  from_environ-IsConfig c h =
      read_numbers-IsConfig (configured_provider int lower env)
        (configured_destination int lower env) c
        (ground (arith, eq_iff (configured_provider int lower env) "log")) (ground arith)
        (ground arith)
