-- ===== src/Decisions/Required.antt =====
-- What `_components` of src/intelligence/decisions.py finds of the requirements and the tasks that a
-- frame names.
use pulse_data_platform.Base.{
  ◌≡◌, refl, String, Bool, true, false, ◌&&◌, List, [], ◌∷◌, ◌++◌, map, any, All, All-map,
  All-select_with, str_eq, ◌∙◌, ok, >>=-elim_ok, eq_refl, select, Bool-cases, inl, inr,
  Option-cases, arith,
}
use pulse_data_platform.Base.Dicts.{get, store, All-get, All-store}
use pulse_data_platform.Sequencing.Keyed.{text-IsKey}
use pulse_data_platform.Sequencing.Reference.{any-map}
use pulse_data_platform.Sequencing.Graph.{member, has_unknown}
use pulse_data_platform.Sequencing.Validation.{is_nonempty}
use pulse_data_platform.Decisions.Contracts.{opening_rules, closing_rules, assessment_rules}
use pulse_data_platform.Intelligence.{DecisionReadinessAssessment, EvidenceRequirement}
use pulse_data_platform.Decisions.Evidence.{
  DecisionError, is_available, unresolved_of, requirements_by_id, requirements_of,
}

-- A requirement of the plan with this identity: what holds of it holds of one in the list.
abbrev pub IsIn : List EvidenceRequirement → String → EvidenceRequirement → Type 0
IsIn plan id r =
    (r.requirement_id ≡ id) × ((p : EvidenceRequirement → Bool) → p r ≡ true → any p plan ≡ true)

abbrev pub AreIn : List EvidenceRequirement → List (String × EvidenceRequirement) → Type 0
AreIn plan d = All (λ (e : String × EvidenceRequirement). IsIn plan e.0 e.1) d

requirements_by_id-AreIn :
    (plan rs : List EvidenceRequirement) (d : List (String × EvidenceRequirement))
    → All (λ (r : EvidenceRequirement). IsIn plan r.requirement_id r) rs
    → AreIn plan d
    → AreIn plan (requirements_by_id rs d)
unfolding requirements_by_id
requirements_by_id-AreIn plan [] d h old = old
requirements_by_id-AreIn plan (r ∷ rs) d h old =
    requirements_by_id-AreIn plan rs (store str_eq r.requirement_id r d) h.1
      (All-store str_eq text-IsKey (IsIn plan) r.requirement_id r d h.0 old)

All-IsIn :
    (plan : List EvidenceRequirement)
    → All (λ (r : EvidenceRequirement). IsIn plan r.requirement_id r) plan
All-IsIn [] = tt
All-IsIn (q ∷ plan) = (
  (refl, λ p h. ground arith),
  All-map (λ (r : EvidenceRequirement). IsIn plan r.requirement_id r)
      (λ (r : EvidenceRequirement). IsIn (q ∷ plan) r.requirement_id r)
      (λ r h. (refl, λ p here. let later = h.1 p here in ground (arith, later))) plan
      (All-IsIn plan),
)

pub requirements_by_id_start :
    (plan : List EvidenceRequirement) → AreIn plan (requirements_by_id plan [])
requirements_by_id_start plan = requirements_by_id-AreIn plan plan [] (All-IsIn plan) tt

pub requirements_of-AreIn :
    (plan : List EvidenceRequirement) (d : List (String × EvidenceRequirement)) (ids : List String)
    (rs : List EvidenceRequirement)
    → AreIn plan d
    → requirements_of d ids ≡ ok rs
    → (map (λ (r : EvidenceRequirement). r.requirement_id) rs ≡ ids)
      × All (λ (r : EvidenceRequirement). IsIn plan r.requirement_id r) rs
unfolding requirements_of
requirements_of-AreIn plan d [] rs all h =
    let none_left : [] ≡ rs = ground arith in rw⁻¹ none_left (refl, tt)
requirements_of-AreIn plan d (id ∷ ids) rs all h = elim (Option-cases (get str_eq id d)) [
  | inl missing ↦ absurd (ground (arith, h))
  | inr (r, found) ↦ >>=-elim_ok (requirements_of d ids) _ (rw found at h) λ rest e made.
      let shape : r ∷ rest ≡ rs = ground arith in
      let here = All-get str_eq text-IsKey (IsIn plan) id r d all found in
      let (names, there) = requirements_of-AreIn plan d ids rest all e in
      rw⁻¹ shape (rw (here.0, names) refl, ((refl, λ p h. here.1 p h), there))
]

-- Nothing is unresolved: each requirement is available.
pub met_of_unresolved :
    (plan : List EvidenceRequirement) (rs : List EvidenceRequirement)
    → All (λ (r : EvidenceRequirement). IsIn plan r.requirement_id r) rs
    → is_nonempty (unresolved_of rs) ≡ false
    → All
        (λ id.
          any
            (λ (r : EvidenceRequirement). str_eq r.requirement_id id && is_available r.status)
            plan
          ≡ true)
        (map (λ (r : EvidenceRequirement). r.requirement_id) rs)
met_of_unresolved plan [] all h = tt
met_of_unresolved plan (r ∷ rs) all h = elim (Bool-cases (is_available r.status)) [
  | inl e ↦ (
    all.0.1
        (λ (q : EvidenceRequirement).
          str_eq q.requirement_id r.requirement_id && is_available q.status)
        (rw (eq_refl r.requirement_id, e) refl),
    met_of_unresolved plan rs all.1 (rw e at h),
  )
  | inr e ↦ absurd (cc (rw e at h))
]

pub All-mapped {ℓ κ} :
    {A : Type ℓ} (f : A → String) (Q : String → Type κ) (xs : List A)
    → All (λ x. Q (f x)) xs
    → All Q (map f xs)
All-mapped f Q [] h = tt
All-mapped f Q (x ∷ xs) h = (h.0, All-mapped f Q xs h.1)

mapped-All {ℓ κ} :
    {A : Type ℓ} (f : A → String) (Q : String → Type κ) (xs : List A)
    → All Q (map f xs)
    → All (λ x. Q (f x)) xs
mapped-All f Q [] h = tt
mapped-All f Q (x ∷ xs) h = (h.0, mapped-All f Q xs h.1)

pub has_unknown_of_members :
    (known ids : List String) → All (λ x. member x known ≡ true) ids → has_unknown known ids ≡ false
has_unknown_of_members known [] h = refl
has_unknown_of_members known (x ∷ ids) h = ground (arith, h.0, has_unknown_of_members known ids h.1)

-- What is selected is known, and what holds of all names holds of the names selected.
module _ {ℓ} {A : Type ℓ} (f : A → String) where
  pub members_self : (xs : List A) → All (λ x. member (f x) (map f xs) ≡ true) xs
  members_self [] = tt
  members_self (x ∷ xs) = (
    rw (eq_refl (f x)) refl,
    All-map (λ y. member (f y) (map f xs) ≡ true) (λ y. member (f y) (map f (x ∷ xs)) ≡ true)
        (λ y h. ground arith) xs (members_self xs),
  )

  pub select-known :
      (p : A → Bool) (xs : List A) → has_unknown (map f xs) (map f (select p xs)) ≡ false
  select-known p xs = has_unknown_of_members (map f xs) (map f (select p xs)) (
      All-mapped f (λ x. member x (map f xs) ≡ true) (select p xs)
        (All-select_with (λ x. member (f x) (map f xs) ≡ true) (λ x. member (f x) (map f xs) ≡ true)
          p (λ x h _. h) xs (members_self xs)))

  pub select_named {κ} :
      (Q : String → Type κ) (p : A → Bool) (xs : List A)
      → All Q (map f xs)
      → All Q (map f (select p xs))
  select_named Q p xs h =
      All-mapped f Q (select p xs)
        (All-select_with (λ x. Q (f x)) (λ x. Q (f x)) p (λ x h _. h) xs (mapped-All f Q xs h))

-- The names of what was looked up are names of the plan.
pub required-known :
    (plan rs : List EvidenceRequirement) (ids : List String)
    → map (λ (r : EvidenceRequirement). r.requirement_id) rs ≡ ids
    → All (λ (r : EvidenceRequirement). IsIn plan r.requirement_id r) rs
    → All (λ id. member id (map (λ (r : EvidenceRequirement). r.requirement_id) plan) ≡ true) ids
required-known plan rs ids names all = rw⁻¹ names (
    All-mapped (λ (r : EvidenceRequirement). r.requirement_id)
      (λ id. member id (map (λ (r : EvidenceRequirement). r.requirement_id) plan) ≡ true) rs
      (All-map (λ (r : EvidenceRequirement). IsIn plan r.requirement_id r)
        (λ (r : EvidenceRequirement).
          member r.requirement_id (map (λ (r : EvidenceRequirement). r.requirement_id) plan) ≡ true)
        (λ r h.
          any-map (λ y. str_eq y r.requirement_id) (λ (q : EvidenceRequirement). q.requirement_id)
            plan
          ∙ h.1 (λ (q : EvidenceRequirement). str_eq q.requirement_id r.requirement_id)
              (eq_refl r.requirement_id))
        rs all))

-- Past the first rules of a list.
beyond {ℓ κ} : {A : Type ℓ} (P : A → Type κ) (xs ys : List A) → All P (xs ++ ys) → All P ys
beyond P [] ys h = h
beyond P (x ∷ xs) ys h = beyond P xs ys h.1

abbrev HasPassed : Bool × DecisionError → Type 0
HasPassed c = c.0 ≡ false

-- The constructor lets no assessment pass that has no relevant task.
pub assessment_rules-relevant :
    (a : DecisionReadinessAssessment)
    → All HasPassed (assessment_rules a)
    → is_nonempty a.relevant_investigation_task_ids ≡ true
unfolding assessment_rules
assessment_rules-relevant a h0 =
    let closing = beyond HasPassed (opening_rules a) (closing_rules a) h0 in
    ground (arith, closing.1.0)
