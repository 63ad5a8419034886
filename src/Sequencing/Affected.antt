-- ===== src/Sequencing/Affected.antt =====
-- The decisions that `_derive_portfolio` of src/intelligence/sequencing.py gathers for a requirement
-- are open, and lack that requirement.
use pulse_data_platform.Base.{
  ℕ, ◌≡◌, refl, String, true, Option, none, some, List, [], ◌∷◌, All, All-append, str_eq, eq_refl,
  ok, >>=-elim_ok, arith, Bool-cases, Option-cases, inl, inr, strip,
}
use pulse_data_platform.Base.Dicts.{get, store, All-store, All-get}
use pulse_data_platform.Intelligence.{
  needs_evidence, InvestigationOpportunity, EvidenceRequirement, InvestigationPlan,
  DecisionReadinessAssessment,
}
use pulse_data_platform.Sequencing.Graph.{
  SequencingError, key_error, member, same_place, Place, SourceIndexes,
}
use pulse_data_platform.Sequencing.Indexed.{IsRequirementEntry}
use pulse_data_platform.Sequencing.Keyed.{text-IsKey, place-IsKey}
use pulse_data_platform.Sequencing.Leverage.{
  must, append_unique, Aggregate, Aggregates, LeverageState, current, next_appearance,
  related_tasks, add_requirement, add_requirements, add_assessments,
}

pub must-eq-ok {ℓ} :
    {V : Type ℓ} (reason : SequencingError) (o : Option V) {v : V}
    → must reason o ≡ ok v
    → o ≡ some v
must-eq-ok reason none h = absurd (cc)
must-eq-ok reason (some w) h = cc

pub All-append_unique {κ} :
    (P : String → Type κ) (xs : List String) (x : String)
    → All P xs
    → P x
    → All P (append_unique xs x)
All-append_unique P xs x h new = elim (Bool-cases (member x xs)) [
  | inl e ↦ rw e h
  | inr e ↦ rw e (All-append P xs (x ∷ []) h (new, tt))
]

pub All-member : (xs : List String) → All (λ x. member x xs ≡ true) xs
All-member [] = tt
All-member (x ∷ xs) = (rw (eq_refl x) refl, weaken xs (All-member xs))
  where
    weaken :
        (ys : List String)
        → All (λ y. member y xs ≡ true) ys
        → All (λ y. member y (x ∷ xs) ≡ true) ys
    weaken [] h = tt
    weaken (y ∷ ys) h = (ground arith, weaken ys h.1)

module _ (indexes : SourceIndexes) where
  -- What a round has done.
  pub add_requirement_parts {κ} :
      {P : Type κ} (a : DecisionReadinessAssessment) (plan : InvestigationPlan)
      (o : InvestigationOpportunity) (id : String) (s s' : LeverageState)
      → add_requirement indexes a plan o id s ≡ ok s'
      → ((r : EvidenceRequirement) (tasks : List String)
          → get same_place (plan.plan_id, id) indexes.requirements ≡ some r
          → related_tasks indexes id a.next_evidence_task_ids
              (current r s.1 (get str_eq id s.0)).tasks
            ≡ ok tasks
          → let g = current r s.1 (get str_eq id s.0) in
            (
              store str_eq id
                  (record g {
                    decisions = append_unique g.decisions a.decision_id;
                    opportunities = append_unique g.opportunities o.opportunity_id;
                    tasks = tasks;
                  })
                  s.0,
              next_appearance (get str_eq id s.0) s.1,
            )
              ≡ s'
            → P)
      → P
  unfolding add_requirement
  add_requirement_parts a plan o id (leverage, appearance) s' h goal =
      >>=-elim_ok (must _ (get same_place (plan.plan_id, id) indexes.requirements)) _ h λ r e1 h1.
        >>=-elim_ok
          (related_tasks indexes id a.next_evidence_task_ids
            (current r appearance (get str_eq id leverage)).tasks)
          _ h1 λ tasks e2 h2. goal r tasks (must-eq-ok _ _ e1) e2 (cc)

module _ (indexes : SourceIndexes) (targeted : List String) where
  -- The decision is open and lacks the requirement.
  abbrev pub Affects : String → String → Type 0
  Affects requirement id =
      (a : DecisionReadinessAssessment) × (get str_eq id indexes.decisions ≡ some a)
      × (needs_evidence a.readiness ≡ true)
      × (member id targeted ≡ true)
      × (member requirement a.unresolved_requirement_ids ≡ true)
      × (strip id ≡ id)

  abbrev pub IsSound : String → Aggregate → Type 0
  IsSound id g =
      (g.requirement.requirement_id ≡ id) × (strip id ≡ id) × All (Affects id) g.decisions

  abbrev pub AreSound : Aggregates → Type 0
  AreSound d = All (λ (e : String × Aggregate). IsSound e.0 e.1) d

  abbrev pub IsTarget : DecisionReadinessAssessment → Type 0
  IsTarget a =
      (get str_eq a.decision_id indexes.decisions ≡ some a)
      × (needs_evidence a.readiness ≡ true)
      × (member a.decision_id targeted ≡ true)
      × (strip a.decision_id ≡ a.decision_id)
      × All (λ r. strip r ≡ r) a.unresolved_requirement_ids

  module _
      (entries : All
        (λ (e : Place × EvidenceRequirement). IsRequirementEntry e.0 e.1)
        indexes.requirements) where
    current-IsSound :
        (plan id : String) (r : EvidenceRequirement) (n : ℕ) (d : Aggregates)
        → get same_place (plan, id) indexes.requirements ≡ some r
        → strip id ≡ id
        → AreSound d
        → IsSound id (current r n (get str_eq id d))
    current-IsSound plan id r n d found clean sound = elim (Option-cases (get str_eq id d)) [
      | inl new ↦ rw new (
        All-get same_place place-IsKey IsRequirementEntry (plan, id) r indexes.requirements entries
            found,
        clean,
        tt,
      )
      | inr (g, old) ↦ rw old (All-get str_eq text-IsKey IsSound id g d sound old)
    ]

    add_requirement-AreSound :
        (a : DecisionReadinessAssessment) (plan : InvestigationPlan) (o : InvestigationOpportunity)
        (id : String) (s s' : LeverageState)
        → add_requirement indexes a plan o id s ≡ ok s'
        → IsTarget a
        → strip id ≡ id
        → member id a.unresolved_requirement_ids ≡ true
        → AreSound s.0
        → AreSound s'.0
    add_requirement-AreSound a plan o id s s' h target clean open_in sound =
        add_requirement_parts indexes a plan o id s s' h λ r tasks found related same.
          let g = current r s.1 (get str_eq id s.0) in
          let before = current-IsSound plan.plan_id id r s.1 s.0 found clean sound in
          rw⁻¹ same (
            All-store str_eq text-IsKey IsSound id
              (record g {
                decisions = append_unique g.decisions a.decision_id;
                opportunities = append_unique g.opportunities o.opportunity_id;
                tasks = tasks;
              })
              s.0
              (
                before.0,
                before.1,
                All-append_unique (Affects id) g.decisions a.decision_id before.2
                    (a, target.0, target.1, target.2, open_in, target.3),
              )
              sound)

    add_requirements-AreSound :
        (a : DecisionReadinessAssessment) (plan : InvestigationPlan) (o : InvestigationOpportunity)
        (ids : List String) (s s' : LeverageState)
        → add_requirements indexes a plan o ids s ≡ ok s'
        → IsTarget a
        → All (λ r. strip r ≡ r) ids
        → All (λ r. member r a.unresolved_requirement_ids ≡ true) ids
        → AreSound s.0
        → AreSound s'.0
    unfolding add_requirements
    add_requirements-AreSound a plan o [] s s' h target clean open_in sound =
        let same : s ≡ s' = cc in rw⁻¹ same sound
    add_requirements-AreSound a plan o (id ∷ ids) s s' h target clean open_in sound =
        >>=-elim_ok (add_requirement indexes a plan o id s) _ h λ s1 e1 h1.
          add_requirements-AreSound a plan o ids s1 s' h1 target clean.1 open_in.1
            (add_requirement-AreSound a plan o id s s1 e1 target clean.0 open_in.0 sound)

    pub add_assessments-AreSound :
        (rows : List DecisionReadinessAssessment) (s s' : LeverageState)
        → add_assessments indexes rows s ≡ ok s'
        → All IsTarget rows
        → AreSound s.0
        → AreSound s'.0
    unfolding add_assessments
    add_assessments-AreSound [] s s' h targets sound = let same : s ≡ s' = cc in rw⁻¹ same sound
    add_assessments-AreSound (a ∷ rows) s s' h targets sound =
        >>=-elim_ok (must key_error (get str_eq a.investigation_plan_id indexes.plans)) _ h
          λ plan e1 h1.
            >>=-elim_ok
              (must key_error (get str_eq a.originating_opportunity_id indexes.opportunities)) _ h1
              λ o e2 h2.
                >>=-elim_ok (add_requirements indexes a plan o a.unresolved_requirement_ids s) _ h2
                  λ s1 e3 h3. add_assessments-AreSound rows s1 s' h3 targets.1 (
                    add_requirements-AreSound a plan o a.unresolved_requirement_ids s s1 e3
                      targets.0 targets.0.4 (All-member a.unresolved_requirement_ids) sound)
