-- ===== src/Delivery/Totality.antt =====
-- How `_attempt` of src/quality/delivery.py ends, whatever the provider does.
use pulse_data_platform.Base.{
  Outcome, err, ℕ, ◌≡◌, String, Bool, Option, none, some, List, ◌∷◌, count, ok, ◌==◌,
}
use pulse_data_platform.Alerts.Rows.{Uuid, Json}
use pulse_data_platform.Delivery.Rows.{
  Delivery, FinalStatus, failed, Sending, returned, no_result, raised, Monitoring,
  DeliveryCandidate, DeliveryResult, Provider, logical_key,
}
use pulse_data_platform.Delivery.Settings.{DeliveryConfig, DeliveryError, completion_failed}
use pulse_data_platform.Delivery.Claiming.{claimed_row}
use pulse_data_platform.Delivery.Attempts.{completed_row, context}

abbrev pub has_delivery_id : Uuid → Delivery → Bool
has_delivery_id id d = d.delivery_id == id

-- The result that an answer of the provider counts as: its own, or one that failed.
abbrev pub Means : Sending → DeliveryResult → Type 0
Means (returned q) r = r ≡ q
Means no_result r = (r.status ≡ failed) × (r.external_reference ≡ none)
Means (raised kind) r = (r.status ≡ failed) × (r.external_reference ≡ none)

-- How an attempt ends, by what the claim gave: nothing is done; or the claimed row is completed
-- with the result of the provider; or the call fails, its details being no JSON, on the tables `x` that the claim left.
pub data Ends (digest : List Json → String) (encode : List (String × Json) → Option Json)
    (c : DeliveryCandidate) (provider : Provider) (now : ℕ) (m : Monitoring)
    : Option (Uuid × ℕ × Monitoring)
      → Outcome DeliveryError (Option FinalStatus × Monitoring)
      → Type 0 where
  deferred : Ends digest encode c provider now m none (ok (none, m))
  stored :
      (id : Uuid) (n : ℕ) (x : Monitoring) (r : DeliveryResult) (details : Json)
      → Means (provider.send c.alert (context c (logical_key digest c) n now)) r
      → encode r.details ≡ some details
      → x.deliveries ≡ claimed_row id c (logical_key digest c) n now ∷ m.deliveries
      → Ends digest encode c provider now m (some (id, n, x)) (
          ok (
            some r.status,
            record x {
              deliveries =
                  completed_row details r now (claimed_row id c (logical_key digest c) n now)
                  ∷ m.deliveries;
            },
          ))
  unstored :
      (id : Uuid) (n : ℕ) (x : Monitoring) (r : DeliveryResult)
      → Means (provider.send c.alert (context c (logical_key digest c) n now)) r
      → encode r.details ≡ none
      → x.deliveries ≡ claimed_row id c (logical_key digest c) n now ∷ m.deliveries
      → Ends digest encode c provider now m (some (id, n, x)) (err completion_failed)

module _ (digest : List Json → String) (uuid5 : String → ℕ → Uuid)
    (encode : List (String × Json) → Option Json) (c : DeliveryCandidate) (config : DeliveryConfig)
    (provider : Provider) (now : ℕ) (force : Bool) (m : Monitoring) where
  -- What is known of a claim.
  abbrev IsClaim : Option (Uuid × ℕ × Monitoring) → Type 0
  IsClaim none = Unit
  IsClaim (some (id, n, x)) =
      (x.deliveries ≡ claimed_row id c (logical_key digest c) n now ∷ m.deliveries)
      × (count (has_delivery_id id) m.deliveries ≡ 0)
