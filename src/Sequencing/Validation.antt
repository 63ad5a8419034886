-- ===== src/Sequencing/Validation.antt =====
-- `_validate_source_graph` of src/intelligence/sequencing.py.
use pulse_data_platform.Base.{
  ℕ, String, Bool, true, false, not, ◌&&◌, ◌||◌, Option, none, some, List, [], ◌∷◌, map, any,
  str_eq, ◌==◌, is_none, Outcome, ok, ◌>>=◌, ◌>>◌, checked,
}
use pulse_data_platform.Base.Dicts.{get}
use pulse_data_platform.Intelligence.{
  is_for_review, IntelligenceContext, InvestigationOpportunity, EvidenceRequirement,
  InvestigationTask, InvestigationPlan, EvidenceGap, DecisionReadinessAssessment,
}
use pulse_data_platform.Sequencing.Sources.{Sources}
use pulse_data_platform.Sequencing.Graph.{
  SequencingError, invalid, has_unknown, number_repeats, same_texts, counts_up, unique_index,
  SourceIndexes, no_plans, index_plans,
}

abbrev pub ids_of_plan : Option InvestigationPlan → List String
ids_of_plan none = []
ids_of_plan (some p) = map (λ (r : EvidenceRequirement). r.requirement_id) p.evidence_requirements

abbrev pub task_ids_of_plan : Option InvestigationPlan → List String
task_ids_of_plan none = []
task_ids_of_plan (some p) = map (λ (t : InvestigationTask). t.task_id) p.tasks

abbrev pub is_unrelated : Option InvestigationOpportunity → Option InvestigationPlan → Bool
is_unrelated (some o) (some p) = not (str_eq p.opportunity_id o.opportunity_id)
is_unrelated _ _ = false

-- `bool(values)`
abbrev pub is_nonempty : List String → Bool
is_nonempty [] = false
is_nonempty (x ∷ xs) = true

-- What one round of the loop over the assessments raises.
abbrev pub assessment_checks :
    IntelligenceContext
    → List (String × InvestigationOpportunity)
    → List (String × InvestigationPlan)
    → DecisionReadinessAssessment
    → List (Bool × SequencingError)
assessment_checks c opportunities plans a =
    let opportunity = get str_eq a.originating_opportunity_id opportunities in
    let plan = get str_eq a.investigation_plan_id plans in
    let requirement_ids = ids_of_plan plan in
    let task_ids = task_ids_of_plan plan in
    (
      not (str_eq a.business_id c.business_id) || not (a.as_of_date == c.as_of_date),
      invalid "Decision crosses business or date boundaries",
    )
    ∷ (is_none opportunity, invalid "Decision references an unknown opportunity ID")
    ∷ (is_none plan, invalid "Decision references an unknown plan ID")
    ∷ (is_unrelated opportunity plan, invalid "Decision references an unrelated plan")
    ∷ (
      has_unknown requirement_ids a.required_requirement_ids,
      invalid "Decision references an unknown requirement ID",
    )
    ∷ (
      has_unknown requirement_ids a.unresolved_requirement_ids,
      invalid "Decision references an unknown unresolved requirement",
    )
    ∷ (
      has_unknown task_ids a.relevant_investigation_task_ids,
      invalid "Decision references an unknown or unrelated task ID",
    )
    ∷ (
      has_unknown task_ids a.next_evidence_task_ids,
      invalid "Decision references an unknown or unrelated task",
    )
    ∷ (
      is_for_review a.readiness && is_nonempty a.unresolved_requirement_ids,
      invalid "READY_FOR_HUMAN_REVIEW decisions cannot have unresolved requirements",
    )
    ∷ []

module _ (c : IntelligenceContext) (opportunities : List (String × InvestigationOpportunity))
    (plans : List (String × InvestigationPlan)) where
  -- The loop over the assessments.
  unfoldable pub check_assessments :
      {A : Type 0} → List DecisionReadinessAssessment → A → Outcome SequencingError A
  check_assessments [] value = ok value
  check_assessments (a ∷ rest) value =
      checked (assessment_checks c opportunities plans a) >> check_assessments rest value

abbrev is_foreign : IntelligenceContext → String → ℕ → Bool
is_foreign c business_id as_of_date =
    not (str_eq business_id c.business_id) || not (as_of_date == c.as_of_date)

abbrev pub identity_checks : Sources → List (Bool × SequencingError)
identity_checks s =
    (
      is_foreign s.context s.evaluation.business_id s.evaluation.as_of_date
          || is_foreign s.context s.investigation.business_id s.investigation.as_of_date
          || is_foreign s.context s.decision.business_id s.decision.as_of_date,
      invalid "Sequencing inputs cross business or date boundaries",
    )
    ∷ []

abbrev pub opportunity_checks : Sources → List (Bool × SequencingError)
opportunity_checks s =
    (
      any (λ (o : InvestigationOpportunity). is_foreign s.context o.business_id o.as_of_date)
          s.evaluation.opportunities,
      invalid "Opportunity crosses business or date boundaries",
    )
    ∷ (
      number_repeats
          (map (λ (o : InvestigationOpportunity). o.opportunity_order) s.evaluation.opportunities),
      invalid "Opportunity orders cannot duplicate",
    )
    ∷ []

abbrev pub cover_checks : Sources → List (Bool × SequencingError)
cover_checks s =
    (
      not (
          same_texts (map (λ (p : InvestigationPlan). p.opportunity_id) s.investigation.plans)
            (map (λ (o : InvestigationOpportunity). o.opportunity_id) s.evaluation.opportunities)),
      invalid "Investigation plans must cover active opportunities in upstream order",
    )
    ∷ []

abbrev pub order_checks : Sources → List (Bool × SequencingError)
order_checks s =
    (
      not (
          counts_up 1
            (map (λ (a : DecisionReadinessAssessment). a.decision_order) s.decision.assessments)),
      invalid "Decision ordering is unstable",
    )
    ∷ []

abbrev pub index_opportunities :
    List InvestigationOpportunity
    → Outcome SequencingError (List (String × InvestigationOpportunity))
index_opportunities = unique_index (λ o. o.opportunity_id) "opportunity ID"

abbrev pub index_plan_ids :
    List InvestigationPlan → Outcome SequencingError (List (String × InvestigationPlan))
index_plan_ids = unique_index (λ p. p.plan_id) "investigation plan ID"

abbrev pub index_gaps : List EvidenceGap → Outcome SequencingError (List (String × EvidenceGap))
index_gaps = unique_index (λ g. g.requirement_id) "evidence gap requirement"

abbrev pub index_decisions :
    List DecisionReadinessAssessment
    → Outcome SequencingError (List (String × DecisionReadinessAssessment))
index_decisions = unique_index (λ a. a.decision_id) "decision ID"

unfoldable pub validate_source_graph : Sources → Outcome SequencingError SourceIndexes
validate_source_graph s = do
  checked (identity_checks s)
  opportunities ← index_opportunities s.evaluation.opportunities
  checked (opportunity_checks s)
  plans ← index_plan_ids s.investigation.plans
  checked (cover_checks s)
  d ← index_plans s.context opportunities s.investigation.plans no_plans
  gaps ← index_gaps s.investigation.evidence_gaps
  decisions ← index_decisions s.decision.assessments
  checked (order_checks s)
  check_assessments s.context opportunities plans s.decision.assessments (record {
    opportunities = opportunities;
    plans = plans;
    tasks = d.tasks;
    requirements = d.requirements;
    gaps = gaps;
    decisions = decisions;
  })
