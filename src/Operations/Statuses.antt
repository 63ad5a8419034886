-- ===== src/Operations/Statuses.antt =====
-- `OperationalStatus`, STATUS_STAGE and `valid_transition` of src/operations/models.py.
use pulse_data_platform.Base.{
  ℕ, Bool, true, ◌&&◌, ◌||◌, List, [], ◌∷◌, any, ◌==◌, leb, if◌then◌else◌,
}

pub data OperationalStatus : Type 0 where
  created pending_confirmation confirmed rejected_confirmation cancelled : OperationalStatus
  ready_for_fulfillment fulfilled shipped in_transit out_for_delivery : OperationalStatus
  delivery_attempted delivered refused unreachable rescheduled : OperationalStatus
  return_in_transit returned_to_origin cash_collected : OperationalStatus
  remittance_pending remitted : OperationalStatus

-- The place of a status among the members of the enumeration.
abbrev pub status_index : OperationalStatus → ℕ
status_index created = 0
status_index pending_confirmation = 1
status_index confirmed = 2
status_index rejected_confirmation = 3
status_index cancelled = 4
status_index ready_for_fulfillment = 5
status_index fulfilled = 6
status_index shipped = 7
status_index in_transit = 8
status_index out_for_delivery = 9
status_index delivery_attempted = 10
status_index delivered = 11
status_index refused = 12
status_index unreachable = 13
status_index rescheduled = 14
status_index return_in_transit = 15
status_index returned_to_origin = 16
status_index cash_collected = 17
status_index remittance_pending = 18
status_index remitted = 19

-- STATUS_STAGE
unfoldable pub status_stage : OperationalStatus → ℕ
status_stage created = 0
status_stage pending_confirmation = 1
status_stage confirmed = 2
status_stage rejected_confirmation = 2
status_stage cancelled = 2
status_stage unreachable = 2
status_stage ready_for_fulfillment = 3
status_stage fulfilled = 4
status_stage shipped = 5
status_stage in_transit = 6
status_stage out_for_delivery = 7
status_stage delivery_attempted = 8
status_stage refused = 8
status_stage rescheduled = 8
status_stage delivered = 9
status_stage return_in_transit = 9
status_stage returned_to_origin = 10
status_stage cash_collected = 10
status_stage remittance_pending = 11
status_stage remitted = 12

abbrev pub status_is : OperationalStatus → OperationalStatus → Bool
status_is s t = status_index s == status_index t

abbrev pub is_among : List OperationalStatus → OperationalStatus → Bool
is_among ts s = any (status_is s) ts

-- TERMINAL_BEFORE_FULFILLMENT
abbrev pub terminal_before_fulfillment : List OperationalStatus
terminal_before_fulfillment = rejected_confirmation ∷ cancelled ∷ []

abbrev pub after_delivered : List OperationalStatus
after_delivered =
    return_in_transit ∷ returned_to_origin ∷ cash_collected ∷ remittance_pending ∷ remitted ∷ []

abbrev pub after_refused : List OperationalStatus
after_refused =
    return_in_transit ∷ returned_to_origin ∷ delivery_attempted ∷ rescheduled ∷ delivered ∷ []

-- The states of a delivery that is tried again.
abbrev pub retried : List OperationalStatus
retried = unreachable ∷ rescheduled ∷ delivery_attempted ∷ []

abbrev pub after_retried : List OperationalStatus
after_retried =
    delivery_attempted ∷ rescheduled ∷ in_transit ∷ refused ∷ out_for_delivery ∷ delivered
    ∷ return_in_transit ∷ returned_to_origin ∷ []

-- The argument `correction` comes last in the source, where it is false by default.
unfoldable pub valid_transition : OperationalStatus → OperationalStatus → Bool → Bool
unfolding status_stage
valid_transition before after correction =
    if correction || status_is before after
    then true
    else if is_among terminal_before_fulfillment before
    then Bool.false
    else if status_is before delivered
    then is_among after_delivered after
    else if status_is before refused
    then is_among after_refused after
    else if status_is after unreachable && leb (status_stage shipped) (status_stage before)
    then true
    else if is_among retried before
    then is_among after_retried after
    else leb (status_stage before) (status_stage after)
