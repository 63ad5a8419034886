-- ===== src/Operations/Fulfilment.antt =====
-- What orders can go through under `valid_transition` of src/operations/models.py without a
-- correction by the provider.
use pulse_data_platform.Base.{
  ◌≡◌, refl, Bool, true, false, not, ◌||◌, List, any, All, [], ◌∷◌, arith, ==_iff, leb,
}
use pulse_data_platform.Operations.Statuses.{
  OperationalStatus, created, pending_confirmation, confirmed, rejected_confirmation, cancelled,
  ready_for_fulfillment, fulfilled, shipped, in_transit, out_for_delivery, delivery_attempted,
  delivered, refused, unreachable, rescheduled, return_in_transit, returned_to_origin,
  cash_collected, remittance_pending, remitted, status_index, status_stage, status_is, is_among,
  terminal_before_fulfillment, retried, valid_transition,
}

not-true : {b : Bool} → not b ≡ true → b ≡ false
not-true {b} h = ground arith

abbrev all_statuses : List OperationalStatus
all_statuses =
    created ∷ pending_confirmation ∷ confirmed ∷ rejected_confirmation ∷ cancelled
    ∷ ready_for_fulfillment ∷ fulfilled ∷ shipped ∷ in_transit ∷ out_for_delivery
    ∷ delivery_attempted ∷ delivered ∷ refused ∷ unreachable ∷ rescheduled ∷ return_in_transit
    ∷ returned_to_origin ∷ cash_collected ∷ remittance_pending ∷ remitted ∷ []

-- A test of all statuses.
abbrev every : (OperationalStatus → Bool) → Bool
every p = not (any (λ s. not (p s)) all_statuses)

every-All :
    (p : OperationalStatus → Bool) (ss : List OperationalStatus)
    → any (λ s. not (p s)) ss ≡ false
    → All (λ s. p s ≡ true) ss
every-All p [] h = tt
every-All p (s ∷ ss) h = (ground arith, every-All p ss (ground arith))

member_of : (P : OperationalStatus → Type 0) (s : OperationalStatus) → All P all_statuses → P s
member_of P created h = h.0
member_of P pending_confirmation h = h.1.0
member_of P confirmed h = h.1.1.0
member_of P rejected_confirmation h = h.1.1.1.0
member_of P cancelled h = h.1.1.1.1.0
member_of P ready_for_fulfillment h = h.1.1.1.1.1.0
member_of P fulfilled h = h.1.1.1.1.1.1.0
member_of P shipped h = h.1.1.1.1.1.1.1.0
member_of P in_transit h = h.1.1.1.1.1.1.1.1.0
member_of P out_for_delivery h = h.1.1.1.1.1.1.1.1.1.0
member_of P delivery_attempted h = h.1.1.1.1.1.1.1.1.1.1.0
member_of P delivered h = h.1.1.1.1.1.1.1.1.1.1.1.0
member_of P refused h = h.1.1.1.1.1.1.1.1.1.1.1.1.0
member_of P unreachable h = h.1.1.1.1.1.1.1.1.1.1.1.1.1.0
member_of P rescheduled h = h.1.1.1.1.1.1.1.1.1.1.1.1.1.1.0
member_of P return_in_transit h = h.1.1.1.1.1.1.1.1.1.1.1.1.1.1.1.0
member_of P returned_to_origin h = h.1.1.1.1.1.1.1.1.1.1.1.1.1.1.1.1.0
member_of P cash_collected h = h.1.1.1.1.1.1.1.1.1.1.1.1.1.1.1.1.1.0
member_of P remittance_pending h = h.1.1.1.1.1.1.1.1.1.1.1.1.1.1.1.1.1.1.0
member_of P remitted h = h.1.1.1.1.1.1.1.1.1.1.1.1.1.1.1.1.1.1.1.0

every_sound : (p : OperationalStatus → Bool) (s : OperationalStatus) → every p ≡ true → p s ≡ true
every_sound p s h =
    let none_fails : any (λ t. not (p t)) all_statuses ≡ false = not-true h in
    member_of (λ t. p t ≡ true) s (every-All p all_statuses none_fails)

-- A test of all pairs.
pairs_sound :
    (p : OperationalStatus → OperationalStatus → Bool)
    → every (λ s. every (p s)) ≡ true
    → (s t : OperationalStatus) → p s t ≡ true
pairs_sound p h s t = every_sound (p s) t (every_sound (λ a. every (p a)) s h)

abbrev implies : Bool → Bool → Bool
implies a b = not a || b

-- The status lies in fulfilment, delivery, return or settlement.
abbrev pub is_past_confirmation : OperationalStatus → Bool
is_past_confirmation s = not (
    is_among (created ∷ pending_confirmation ∷ confirmed ∷ rejected_confirmation ∷ cancelled ∷ [])
      s)

-- What an uncorrected movement keeps, pair by pair.
step_table :
    every (λ s. every (λ t.
      implies
        (valid_transition s t false)
        (implies (is_past_confirmation s) (is_past_confirmation t))))
    ≡ true
unfolding valid_transition
step_table = refl

-- Movements without a correction.
pub data Moves (s : OperationalStatus) : OperationalStatus → Type 0 where
  stay : Moves s s
  move : {t u : OperationalStatus} → Moves s t → valid_transition t u false ≡ true → Moves s u

-- An order that has gone past its confirmation is never created, confirmed, rejected or cancelled
-- again by movements that no correction marks.
pub Moves-past_confirmation :
    (s t : OperationalStatus)
    → is_past_confirmation s ≡ true
    → Moves s t
    → is_past_confirmation t ≡ true
Moves-past_confirmation s t h stay = h
Moves-past_confirmation s u h (move {t} m valid) =
    let table =
      pairs_sound
        (λ a b.
          implies (valid_transition a b false)
            (implies (is_past_confirmation a) (is_past_confirmation b)))
        step_table t u in
    let before : is_past_confirmation t ≡ true = Moves-past_confirmation s t h m in
    rw (valid, before) at table

terminal_table :
    every (λ s. every (λ t.
      implies
        (valid_transition s t false)
        (implies (is_among terminal_before_fulfillment s) (status_is s t))))
    ≡ true
unfolding valid_transition
terminal_table = refl

same_terminal :
    (s t : OperationalStatus)
    → status_index s ≡ status_index t
    → is_among terminal_before_fulfillment s ≡ is_among terminal_before_fulfillment t
same_terminal s t h = rw h refl

-- A rejected or cancelled order keeps its status under movements that no correction marks.
Moves-terminal :
    (s t : OperationalStatus)
    → is_among terminal_before_fulfillment s ≡ true
    → Moves s t
    → status_is s t ≡ true
Moves-terminal s t h stay = ground arith
Moves-terminal s u h (move {t} m valid) =
    let table =
      pairs_sound
        (λ a b.
          implies (valid_transition a b false)
            (implies (is_among terminal_before_fulfillment a) (status_is a b)))
        terminal_table t u in
    let before : status_index s ≡ status_index t =
      (==_iff (status_index s) (status_index t)).0 (Moves-terminal s t h m) in
    let still : is_among terminal_before_fulfillment t ≡ true = rw (← same_terminal s t before) h in
    let step : status_is t u ≡ true = rw (valid, still) at table in rw before step

backward_table :
    every (λ s. every (λ t. implies (valid_transition s t false) (
      leb (status_stage s) (status_stage t)
      || is_among (refused ∷ retried) s
      || status_is t unreachable)))
    ≡ true
unfolding valid_transition
backward_table = refl

-- Without a correction a status moves to an earlier stage only from a refused or retried delivery,
-- or to a customer who is unreachable.
valid_transition_backward :
    (s t : OperationalStatus)
    → valid_transition s t false ≡ true
    → (leb (status_stage s) (status_stage t)
        || is_among (refused ∷ retried) s
        || status_is t unreachable)
      ≡ true
valid_transition_backward s t valid =
    let table =
      pairs_sound
        (λ a b. implies (valid_transition a b false) (
          leb (status_stage a) (status_stage b)
          || is_among (refused ∷ retried) a
          || status_is b unreachable))
        backward_table s t in
    rw valid at table
