-- ===== src/Decisions/Contracts.antt =====
-- The constructor of `DecisionReadinessAssessment` in src/intelligence/decision_models.py.
use Prim.Native.String.{◌++◌ as ◌<>◌}
use pulse_data_platform.Base.{
  String, Bool, true, false, not, ◌&&◌, ◌||◌, List, [], ◌∷◌, ◌++◌, map, any, strip, is_blank, ◌==◌,
  Outcome, run_checks,
}
use pulse_data_platform.Sequencing.Graph.{member, has_repeat, has_unknown}
use pulse_data_platform.Sequencing.Items.{decision_id_pattern, matches}
use pulse_data_platform.Intelligence.{
  ReadinessReasonCode, sufficient_current_evidence, missing_required_evidence,
  open_critical_investigation, counter_evidence_present, data_quality_limitation,
  causal_uncertainty, measurement_unresolved, economic_boundary, human_review_is_required,
  DecisionReadinessAssessment,
}
use pulse_data_platform.Sequencing.Validation.{is_nonempty}
use pulse_data_platform.Decisions.Evidence.{DecisionError, refused}

-- `reason.value`
abbrev pub reason_value : ReadinessReasonCode → String
reason_value sufficient_current_evidence = "SUFFICIENT_CURRENT_EVIDENCE"
reason_value missing_required_evidence = "MISSING_REQUIRED_EVIDENCE"
reason_value open_critical_investigation = "OPEN_CRITICAL_INVESTIGATION"
reason_value counter_evidence_present = "COUNTER_EVIDENCE_PRESENT"
reason_value data_quality_limitation = "DATA_QUALITY_LIMITATION"
reason_value causal_uncertainty = "CAUSAL_UNCERTAINTY"
reason_value measurement_unresolved = "MEASUREMENT_UNRESOLVED"
reason_value economic_boundary = "ECONOMIC_BOUNDARY"
reason_value human_review_is_required = "HUMAN_REVIEW_REQUIRED"

abbrev pub reason_values : List ReadinessReasonCode → List String
reason_values = map reason_value

-- `_text`
abbrev text_rule : String → String → Bool × DecisionError
text_rule field value = (is_blank value, refused (field <> " must be non-empty text"))

-- `_text_tuple`
abbrev tuple_rules : String → Bool → List String → List (Bool × DecisionError)
tuple_rules field required values =
    (any is_blank values, refused (field <> " must be non-empty text"))
    ∷ (required && not (is_nonempty values), refused (field <> " cannot be empty"))
    ∷ (has_repeat (map strip values), refused (field <> " cannot contain duplicates"))
    ∷ []

-- The intersection of the two sets is not empty.
abbrev pub meet : List String → List String → Bool
meet xs ys = any (λ x. member x ys) xs

abbrev pub clean_assessment : DecisionReadinessAssessment → DecisionReadinessAssessment
clean_assessment a = record a {
  decision_id = strip a.decision_id;
  business_id = strip a.business_id;
  originating_opportunity_id = strip a.originating_opportunity_id;
  investigation_plan_id = strip a.investigation_plan_id;
  decision_question = strip a.decision_question;
  rationale_summary = strip a.rationale_summary;
  decision_boundary = strip a.decision_boundary;
  limitation = strip a.limitation;
  supporting_evidence_refs = map strip a.supporting_evidence_refs;
  counter_evidence_refs = map strip a.counter_evidence_refs;
  blocking_evidence_refs = map strip a.blocking_evidence_refs;
  required_requirement_ids = map strip a.required_requirement_ids;
  unresolved_requirement_ids = map strip a.unresolved_requirement_ids;
  relevant_investigation_task_ids = map strip a.relevant_investigation_task_ids;
  next_evidence_task_ids = map strip a.next_evidence_task_ids;
}

abbrev text_rules : DecisionReadinessAssessment → List (Bool × DecisionError)
text_rules a =
    (a.decision_order == 0, refused "decision_order must be a positive integer")
    ∷ text_rule "decision_id" a.decision_id
    ∷ text_rule "business_id" a.business_id
    ∷ text_rule "originating_opportunity_id" a.originating_opportunity_id
    ∷ text_rule "investigation_plan_id" a.investigation_plan_id
    ∷ text_rule "decision_question" a.decision_question
    ∷ text_rule "rationale_summary" a.rationale_summary
    ∷ text_rule "decision_boundary" a.decision_boundary
    ∷ text_rule "limitation" a.limitation
    ∷ (
      not (matches decision_id_pattern (strip a.decision_id)),
      refused "decision_id has an invalid stable shape",
    )
    ∷ []

abbrev reason_rules : DecisionReadinessAssessment → List (Bool × DecisionError)
reason_rules a =
    let reasons = reason_values a.readiness_reason_codes in
    (not (is_nonempty reasons), refused "readiness_reason_codes cannot be empty")
    ∷ (has_repeat reasons, refused "readiness_reason_codes cannot contain duplicates")
    ∷ []

-- What is asked of the fields once they are stripped.
abbrev link_rules : DecisionReadinessAssessment → List (Bool × DecisionError)
link_rules a =
    (
      meet a.supporting_evidence_refs a.counter_evidence_refs
          || meet a.supporting_evidence_refs a.blocking_evidence_refs
          || meet a.counter_evidence_refs a.blocking_evidence_refs,
      refused "Evidence buckets must be disjoint",
    )
    ∷ (
      has_unknown a.required_requirement_ids a.unresolved_requirement_ids,
      refused "Unresolved requirements must be required",
    )
    ∷ (
      has_unknown a.relevant_investigation_task_ids a.next_evidence_task_ids,
      refused "Next evidence tasks must be relevant tasks",
    )
    ∷ (not a.human_review_required, refused "human_review_required must always be true")
    ∷ (a.autonomous_action_allowed, refused "autonomous_action_allowed must always be false")
    ∷ (
      not (member "HUMAN_REVIEW_REQUIRED" (reason_values a.readiness_reason_codes)),
      refused "Every assessment must preserve human review",
    )
    ∷ []

abbrev pub opening_rules : DecisionReadinessAssessment → List (Bool × DecisionError)
opening_rules a =
    text_rules a
    ++ (reason_rules a
        ++ (tuple_rules "supporting_evidence_refs" true a.supporting_evidence_refs
            ++ (tuple_rules "counter_evidence_refs" false a.counter_evidence_refs
                ++ (tuple_rules "blocking_evidence_refs" false a.blocking_evidence_refs
                    ++ (tuple_rules "required_requirement_ids" true a.required_requirement_ids
                        ++ tuple_rules "unresolved_requirement_ids" false
                            a.unresolved_requirement_ids)))))

abbrev pub closing_rules : DecisionReadinessAssessment → List (Bool × DecisionError)
closing_rules a =
    tuple_rules "relevant_investigation_task_ids" true a.relevant_investigation_task_ids
    ++ (tuple_rules "next_evidence_task_ids" false a.next_evidence_task_ids
        ++ link_rules (clean_assessment a))

unfoldable pub assessment_rules : DecisionReadinessAssessment → List (Bool × DecisionError)
assessment_rules a = opening_rules a ++ closing_rules a

-- `DecisionReadinessAssessment(…)` with the `__post_init__` of the class.
unfoldable pub decision_assessment :
    DecisionReadinessAssessment → Outcome DecisionError DecisionReadinessAssessment
decision_assessment a = run_checks (assessment_rules a) (clean_assessment a)
