-- ===== src/Sequencing/Lookups.antt =====
-- After `_validate_source_graph` no lookup of `_derive_portfolio` in src/intelligence/sequencing.py
-- fails.
use pulse_data_platform.Base.{
  ℕ, ◌≡◌, refl, String, true, some, List, [], ◌∷◌, ◌++◌, All, str_eq, ok, Bool-cases, inl, inr,
  Option-cases,
}
use pulse_data_platform.Base.Dicts.{get, has, store, All-get, All-store, found_of_has}
use pulse_data_platform.Intelligence.{
  OpportunityPriority, InvestigationOpportunity, EvidenceRequirement, InvestigationPlan,
  DecisionReadinessAssessment,
}
use pulse_data_platform.Sequencing.Graph.{member, same_place, SourceIndexes}
use pulse_data_platform.Sequencing.Keyed.{text-IsKey}
use pulse_data_platform.Sequencing.Leverage.{
  append_unique, Aggregate, Aggregates, LeverageState, current, next_appearance, related_tasks,
  add_requirement, add_requirements, add_assessments, priorities_of,
}
use pulse_data_platform.Sequencing.Affected.{All-append_unique}

module _ (indexes : SourceIndexes) where
  -- Everything that the assessment names is there.
  abbrev pub Resolves : DecisionReadinessAssessment → Type 0
  Resolves a =
      (o : InvestigationOpportunity) × (plan : InvestigationPlan) × (get str_eq
          a.originating_opportunity_id indexes.opportunities
        ≡ some o)
      × (get str_eq a.investigation_plan_id indexes.plans ≡ some plan)
      × All (λ r. has same_place (plan.plan_id, r) indexes.requirements ≡ true)
          a.unresolved_requirement_ids
      × All (λ t. has str_eq t indexes.tasks ≡ true) a.next_evidence_task_ids
      × (has str_eq o.opportunity_id indexes.opportunities ≡ true)

  abbrev pub HasTask : String → Type 0
  HasTask t = has str_eq t indexes.tasks ≡ true

  abbrev pub HasOpportunity : String → Type 0
  HasOpportunity o = has str_eq o indexes.opportunities ≡ true

  -- There are opportunities, and each one is known.
  abbrev pub IsPriced : String → Aggregate → Type 0
  IsPriced id g =
      ((o : String) × (os : List String) × (g.opportunities ≡ o ∷ os))
      × All HasOpportunity g.opportunities

  abbrev pub ArePriced : Aggregates → Type 0
  ArePriced d = All (λ (e : String × Aggregate). IsPriced e.0 e.1) d

  related_tasks_total :
      (id : String) (ts tasks : List String)
      → All HasTask ts
      → (result : List String) × (related_tasks indexes id ts tasks ≡ ok result)
  unfolding related_tasks
  related_tasks_total id [] tasks h = (tasks, refl)
  related_tasks_total id (t ∷ ts) tasks h =
      let (entry, found) = found_of_has str_eq t indexes.tasks h.0 in
      rw found (related_tasks_total id ts _ h.1)

  append_unique_cons :
      (xs : List String) (x : String)
      → (y : String) × (ys : List String) × (append_unique xs x ≡ y ∷ ys)
  append_unique_cons [] x = (x, [], refl)
  append_unique_cons (y ∷ ys) x = elim (Bool-cases (member x (y ∷ ys))) [
    | inl e ↦ rw e (y, ys, refl)
    | inr e ↦ rw e (y, ys ++ x ∷ [], refl)
  ]

  current_opportunities :
      (id : String) (r : EvidenceRequirement) (n : ℕ) (d : Aggregates)
      → ArePriced d
      → All HasOpportunity (current r n (get str_eq id d)).opportunities
  current_opportunities id r n d h = elim (Option-cases (get str_eq id d)) [
    | inl new ↦ rw new tt
    | inr (g, old) ↦ rw old ((All-get str_eq text-IsKey IsPriced id g d h old).1)
  ]

  add_requirement_total :
      (a : DecisionReadinessAssessment) (plan : InvestigationPlan) (o : InvestigationOpportunity)
      (id : String) (s : LeverageState)
      → has same_place (plan.plan_id, id) indexes.requirements ≡ true
      → All HasTask a.next_evidence_task_ids
      → HasOpportunity o.opportunity_id
      → ArePriced s.0
      → (s' : LeverageState) × (add_requirement indexes a plan o id s ≡ ok s') × ArePriced s'.0
  unfolding add_requirement
  add_requirement_total a plan o id (leverage, n) there tasks known priced =
      let (r, found) = found_of_has same_place (plan.plan_id, id) indexes.requirements there in
      let g = current r n (get str_eq id leverage) in
      let (related, e) = related_tasks_total id a.next_evidence_task_ids g.tasks tasks in
      let next = record g {
        decisions = append_unique g.decisions a.decision_id;
        opportunities = append_unique g.opportunities o.opportunity_id;
        tasks = related;
      } in
      (
        (store str_eq id next leverage, next_appearance (get str_eq id leverage) n),
        rw (found, e) refl,
        All-store str_eq text-IsKey IsPriced id next leverage
            (
              append_unique_cons g.opportunities o.opportunity_id,
              All-append_unique HasOpportunity g.opportunities o.opportunity_id
                  (current_opportunities id r n leverage priced) known,
            )
            priced,
      )

  add_requirements_total :
      (a : DecisionReadinessAssessment) (plan : InvestigationPlan) (o : InvestigationOpportunity)
      (ids : List String) (s : LeverageState)
      → All (λ r. has same_place (plan.plan_id, r) indexes.requirements ≡ true) ids
      → All HasTask a.next_evidence_task_ids
      → HasOpportunity o.opportunity_id
      → ArePriced s.0
      → (s' : LeverageState) × (add_requirements indexes a plan o ids s ≡ ok s') × ArePriced s'.0
  unfolding add_requirements
  add_requirements_total a plan o [] s there tasks known priced = (s, refl, priced)
  add_requirements_total a plan o (id ∷ ids) s there tasks known priced =
      let (s1, e, priced1) = add_requirement_total a plan o id s there.0 tasks known priced in
      rw e (add_requirements_total a plan o ids s1 there.1 tasks known priced1)

  pub add_assessments_total :
      (rows : List DecisionReadinessAssessment) (s : LeverageState)
      → All Resolves rows
      → ArePriced s.0
      → (s' : LeverageState) × (add_assessments indexes rows s ≡ ok s') × ArePriced s'.0
  unfolding add_assessments
  add_assessments_total [] s h priced = (s, refl, priced)
  add_assessments_total (a ∷ rows) s h priced =
      let (o, plan, found_o, found_plan, requirements, tasks, known) = h.0 in
      let (s1, e, priced1) =
        add_requirements_total a plan o a.unresolved_requirement_ids s requirements tasks known
          priced in
      rw (found_plan, found_o, e) (add_assessments_total rows s1 h.1 priced1)

  pub priorities_of_total :
      (ids : List String)
      → All HasOpportunity ids
      → (ps : List OpportunityPriority) × (priorities_of indexes ids ≡ ok ps)
  unfolding priorities_of
  priorities_of_total [] h = ([], refl)
  priorities_of_total (id ∷ ids) h =
      let (o, found) = found_of_has str_eq id indexes.opportunities h.0 in
      let (ps, rest) = priorities_of_total ids h.1 in (o.priority ∷ ps, rw (found, rest) refl)
