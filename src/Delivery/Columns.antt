-- ===== src/Delivery/Columns.antt =====
-- That the logical key of src/quality/delivery.py tells deliveries apart as their columns do.
use pulse_data_platform.Base.{
  ◌≡◌, refl, String, Bool, true, List, [], ◌∷◌, arith, All, Bool-cases, inl, inr, eq_iff, ==_iff,
  ◌∙◌, str_eq, ◌&&◌, ◌==◌,
}
use pulse_data_platform.Alerts.Rows.{Json}
use pulse_data_platform.Delivery.Rows.{
  Delivery, DeliveryKind, DeliveryCandidate, initial, recurrence, escalation, logical_key,
  delivery_payload, kind_text, kind_eq, latest_attempt, has_key,
}

-- The row is an attempt of the candidate's delivery, by its columns.
abbrev pub is_attempt_of : DeliveryCandidate → Delivery → Bool
is_attempt_of c d =
    d.alert_event_id == c.alert.alert_event_id
    && str_eq d.provider c.provider
    && str_eq d.destination_key c.destination_key
    && kind_eq d.delivery_kind c.delivery_kind
    && d.delivery_version == c.delivery_version

pub latest_attempt-eq :
    (p q : Delivery → Bool) (ds : List Delivery)
    → All (λ d. p d ≡ q d) ds
    → latest_attempt p ds ≡ latest_attempt q ds
unfolding latest_attempt
latest_attempt-eq p q [] h = refl
latest_attempt-eq p q (d ∷ ds) h = rw (h.0, latest_attempt-eq p q ds h.1) refl

-- The row carries the key of its columns, and the digest tells this key from the candidate's unless
-- the columns are the same.
pub record IsKeyed (digest : List Json → String) (c : DeliveryCandidate) (d : Delivery)
    : Type 0 where
  pub keyed :
      d.logical_delivery_key
      ≡ digest (
          delivery_payload d.alert_event_id d.provider d.destination_key d.delivery_kind
            d.delivery_version)
  pub no_collision :
      d.logical_delivery_key ≡ logical_key digest c
      → delivery_payload d.alert_event_id d.provider d.destination_key d.delivery_kind
          d.delivery_version
        ≡ delivery_payload c.alert.alert_event_id c.provider c.destination_key c.delivery_kind
            c.delivery_version

kind_of_text : (u v : DeliveryKind) → kind_text u ≡ kind_text v → kind_eq u v ≡ true
kind_of_text initial initial h = refl
kind_of_text recurrence recurrence h = refl
kind_of_text escalation escalation h = refl
kind_of_text initial recurrence h = absurd (ground (arith, eq_iff "INITIAL" "RECURRENCE"))
kind_of_text initial escalation h = absurd (ground (arith, eq_iff "INITIAL" "ESCALATION"))
kind_of_text recurrence initial h = absurd (ground (arith, eq_iff "RECURRENCE" "INITIAL"))
kind_of_text recurrence escalation h = absurd (ground (arith, eq_iff "RECURRENCE" "ESCALATION"))
kind_of_text escalation initial h = absurd (ground (arith, eq_iff "ESCALATION" "INITIAL"))
kind_of_text escalation recurrence h = absurd (ground (arith, eq_iff "ESCALATION" "RECURRENCE"))

kind_eq_sound : (u v : DeliveryKind) → kind_eq u v ≡ true → u ≡ v
kind_eq_sound initial initial h = refl
kind_eq_sound recurrence recurrence h = refl
kind_eq_sound escalation escalation h = refl
kind_eq_sound initial recurrence h = absurd (cc)
kind_eq_sound initial escalation h = absurd (cc)
kind_eq_sound recurrence initial h = absurd (cc)
kind_eq_sound recurrence escalation h = absurd (cc)
kind_eq_sound escalation initial h = absurd (cc)
kind_eq_sound escalation recurrence h = absurd (cc)

payload_columns :
    (c : DeliveryCandidate) (d : Delivery)
    → delivery_payload d.alert_event_id d.provider d.destination_key d.delivery_kind
        d.delivery_version
      ≡ delivery_payload c.alert.alert_event_id c.provider c.destination_key c.delivery_kind
          c.delivery_version
    → is_attempt_of c d ≡ true
unfolding delivery_payload
payload_columns c d h =
    let alert : d.alert_event_id ≡ c.alert.alert_event_id = cc in
    let provider : d.provider ≡ c.provider = cc in
    let destination : d.destination_key ≡ c.destination_key = cc in
    let kind : kind_text d.delivery_kind ≡ kind_text c.delivery_kind = cc in
    let version : d.delivery_version ≡ c.delivery_version = cc in
    let same_kind = kind_of_text d.delivery_kind c.delivery_kind kind in
    rw
      (
        same_kind,
        (==_iff d.alert_event_id c.alert.alert_event_id).1 alert,
        (eq_iff d.provider c.provider).1 provider,
        (eq_iff d.destination_key c.destination_key).1 destination,
        (==_iff d.delivery_version c.delivery_version).1 version,
      )
      refl

pub IsKeyed-has_key :
    (digest : List Json → String) (c : DeliveryCandidate) (d : Delivery)
    → IsKeyed digest c d
    → has_key (logical_key digest c) d ≡ is_attempt_of c d
unfolding logical_key delivery_payload
IsKeyed-has_key digest c d h = elim (Bool-cases (is_attempt_of c d)) [
  | inl own ↦
      let alert : d.alert_event_id ≡ c.alert.alert_event_id =
        (==_iff d.alert_event_id c.alert.alert_event_id).0 (ground arith) in
      let provider : d.provider ≡ c.provider = (eq_iff d.provider c.provider).0 (ground arith) in
      let destination : d.destination_key ≡ c.destination_key =
        (eq_iff d.destination_key c.destination_key).0 (ground arith) in
      let kind : d.delivery_kind ≡ c.delivery_kind =
        kind_eq_sound d.delivery_kind c.delivery_kind (ground arith) in
      let version : d.delivery_version ≡ c.delivery_version =
        (==_iff d.delivery_version c.delivery_version).0 (ground arith) in
      let key = h.keyed ∙ rw (alert, provider, destination, kind, version) refl in
      rw own ((eq_iff d.logical_delivery_key (logical_key digest c)).1 key)
  | inr other ↦ elim (Bool-cases (has_key (logical_key digest c) d)) [
    | inl same ↦
        let made =
          payload_columns c d
            (h.no_collision ((eq_iff d.logical_delivery_key (logical_key digest c)).0 same)) in
        absurd (cc)
    | inr differ ↦ rw (differ, other) refl
  ]
]
