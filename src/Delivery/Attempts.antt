-- ===== src/Delivery/Attempts.antt =====
-- `_complete` and `_attempt` of src/quality/delivery.py.
use Prim.Native.String.{◌++◌ as ◌<>◌}
use pulse_data_platform.Base.{
  subst, ◌≡◌, arith, Option-cases, inl, inr, ℕ, String, Bool, ◌&&◌, Option, none, some, List, [],
  ◌∷◌, ◌++◌, count, update, ◌==◌, Outcome, ok, err, ◌>>=◌, if◌then◌else◌,
}
use pulse_data_platform.Alerts.Rows.{Uuid, Json, text}
use pulse_data_platform.Delivery.Rows.{
  Delivery, final, FinalStatus, failed, Monitoring, DeliveryCandidate, DeliveryContext,
  DeliveryResult, Sending, returned, no_result, raised, Provider, logical_key, is_pending,
}
use pulse_data_platform.Delivery.Settings.{DeliveryConfig, DeliveryError, completion_failed}
use pulse_data_platform.Delivery.Claiming.{claim}

-- `WHERE delivery_id=%s AND delivery_status='PENDING'`
abbrev pub is_pending_with : Uuid → Delivery → Bool
is_pending_with id d = d.delivery_id == id && is_pending d.delivery_status

-- `details || {"provider_result": …}`, of the details as `json_value` gives them.
unfoldable pub completed_row : Json → DeliveryResult → ℕ → Delivery → Delivery
completed_row details result at d = record d {
  delivery_status = final result.status;
  completed_at_utc = some at;
  external_reference = result.external_reference;
  error_message = result.error_message;
  details = d.details ++ ("provider_result", details) ∷ [];
}

unfoldable pub context : DeliveryCandidate → String → ℕ → ℕ → DeliveryContext
context c key attempt now = record {
  logical_delivery_key = key;
  delivery_kind = c.delivery_kind;
  delivery_version = c.delivery_version;
  escalation_level = c.escalation_level;
  destination_key = c.destination_key;
  attempt_number = attempt;
  attempted_at_utc = now;
}

-- `except Exception as error`: the text of the exception is not kept.
unfoldable pub failure : String → DeliveryResult
failure kind = record {
  status = failed;
  external_reference = none;
  error_message = some ("Provider delivery failed (" <> (kind <> ")"));
  details = ("exception_type", text kind) ∷ [];
}

unfoldable pub result_of : Sending → DeliveryResult
unfolding failure
result_of (returned r) = r
result_of no_result = failure "TypeError"
result_of (raised kind) = failure kind

-- After `json_value`, which may have raised.
abbrev pub complete_with :
    Uuid → DeliveryResult → ℕ → Monitoring → Option Json → Outcome DeliveryError Monitoring
complete_with id result at m none = err completion_failed
complete_with id result at m (some details) =
    if count (is_pending_with id) m.deliveries == 1
    then ok (record m {
      deliveries = update (is_pending_with id) (completed_row details result at) m.deliveries;
    })
    else err completion_failed

-- `encode` is `json_value(dict(…))`; it gives nothing where that raises.
module _ (encode : List (String × Json) → Option Json) where
  unfoldable pub complete :
      Uuid → DeliveryResult → ℕ → Monitoring → Outcome DeliveryError Monitoring
  unfolding completed_row
  complete id result at m = complete_with id result at m (encode result.details)

module _ (digest : List Json → String) (uuid5 : String → ℕ → Uuid)
    (encode : List (String × Json) → Option Json) where
  -- After the claim: send, then complete.
  unfoldable pub send_claimed :
      DeliveryCandidate
      → Provider
      → ℕ
      → Option (Uuid × ℕ × Monitoring)
      → Monitoring
      → Outcome DeliveryError (Option FinalStatus × Monitoring)
  unfolding complete context result_of
  send_claimed c provider now none m = ok (none, m)
  send_claimed c provider now (some (id, attempt, claimed)) m = do
    let result = result_of (provider.send c.alert (context c (logical_key digest c) attempt now))
    done ← complete encode id result now claimed
    ok (some result.status, done)

  unfoldable pub attempt :
      DeliveryCandidate
      → DeliveryConfig
      → Provider
      → ℕ
      → Bool
      → Monitoring
      → Outcome DeliveryError (Option FinalStatus × Monitoring)
  unfolding send_claimed claim
  attempt c config provider now force m =
      send_claimed c provider now (claim digest uuid5 c config now force m) m

-- What a completion that returns has done.
pub record Completed (encode : List (String × Json) → Option Json) (id : Uuid) (r : DeliveryResult)
    (at : ℕ) (m m' : Monitoring) : Type 0 where
  pub details : Json
  pub encoded : encode r.details ≡ some details
  pub alone : count (is_pending_with id) m.deliveries ≡ 1
  pub written :
      m'.deliveries ≡ update (is_pending_with id) (completed_row details r at) m.deliveries

pub complete-Completed :
    (encode : List (String × Json) → Option Json) (id : Uuid) (r : DeliveryResult) (at : ℕ)
    (m m' : Monitoring)
    → complete encode id r at m ≡ ok m'
    → Completed encode id r at m m'
unfolding complete
complete-Completed encode id r at m m' h = elim (Option-cases (encode r.details)) [
  | inl lost ↦ let none_put = subst (λ o. complete_with id r at m o ≡ ok m') lost h in absurd (cc)
  | inr (details, encoded) ↦
      let put = subst (λ o. complete_with id r at m o ≡ ok m') encoded h in
      record { details = details; encoded = encoded; alone = ground arith; written = ground arith }
]
