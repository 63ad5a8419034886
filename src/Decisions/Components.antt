-- ===== src/Decisions/Components.antt =====
-- `_components` and `_relevant_tasks` of src/intelligence/decisions.py.
use pulse_data_platform.Base.{
  String, Bool, not, ◌&&◌, ◌||◌, List, [], ◌∷◌, ◌++◌, map, any, Outcome, ok, ◌>>=◌, ◌>>◌, checked,
}
use pulse_data_platform.Sequencing.Graph.{has_unknown}
use pulse_data_platform.Intelligence.{
  ReadinessReasonCode, sufficient_current_evidence, missing_required_evidence,
  open_critical_investigation, counter_evidence_present, data_quality_limitation,
  causal_uncertainty, measurement_unresolved, economic_boundary, human_review_is_required,
  is_ready_now, DecisionReadiness, is_for_review, needs_evidence, IntelligenceContext,
  InvestigationOpportunity, EvidenceRequirement, InvestigationTask, InvestigationPlan,
}
use pulse_data_platform.Sequencing.Validation.{is_nonempty}
use pulse_data_platform.Decisions.Frames.{DecisionFrameSpec}
use pulse_data_platform.Decisions.Evidence.{
  DecisionError, refused, same_type, prevents, blocks, is_change, is_measurement_use,
  relevant_tasks, requirements_by_id, requirements_of, unresolved_of, is_boundary_blocked,
  readiness_of, noted, rationale_of, task_ids, next_tasks, support_of,
}

pub record Components : Type 0 where
  pub readiness : DecisionReadiness
  pub reasons : List ReadinessReasonCode
  pub rationale : String
  pub support : List String
  pub counter : List String
  pub blocking : List String
  pub unresolved : List String
  pub relevant_task_ids : List String
  pub next_task_ids : List String

-- The part of `_components` past its checks and lookups.
module _ (context : IntelligenceContext) (o : InvestigationOpportunity) (frame : DecisionFrameSpec)
    (requirements : List EvidenceRequirement) (relevant : List InvestigationTask) where
  abbrev pub counter_blocks : Bool
  counter_blocks = is_nonempty o.counter_evidence_refs && prevents frame.counter_evidence_behavior

  abbrev pub blocker_blocks : Bool
  blocker_blocks = is_nonempty o.blocking_evidence_refs && blocks frame.blocker_behavior

  abbrev pub has_ready_task : Bool
  has_ready_task = any (λ (t : InvestigationTask). is_ready_now t.readiness) relevant

  abbrev pub bar_readiness : DecisionReadiness
  bar_readiness = readiness_of (is_boundary_blocked context frame requirements) (
      is_nonempty (unresolved_of requirements)
      || counter_blocks
      || blocker_blocks
      || frame.require_ready_task && not has_ready_task)

  abbrev pub reasons_of : List ReadinessReasonCode
  reasons_of =
      let unresolved = is_nonempty (unresolved_of requirements) in
      let bounded = is_boundary_blocked context frame requirements in
      let wanting = needs_evidence bar_readiness in
      noted (is_for_review bar_readiness) sufficient_current_evidence
      ++ (noted (unresolved && not bounded) missing_required_evidence
          ++ (noted (is_nonempty o.counter_evidence_refs) counter_evidence_present
              ++ (noted (is_nonempty o.blocking_evidence_refs) data_quality_limitation
                  ++ (noted
                        (wanting
                          && (unresolved || counter_blocks || blocker_blocks || not has_ready_task))
                        open_critical_investigation
                      ++ (noted (wanting && is_change frame.decision_class) causal_uncertainty
                          ++ (noted (wanting && is_measurement_use frame.decision_type)
                                measurement_unresolved
                              ++ (noted bounded economic_boundary
                                  ++ human_review_is_required ∷ [])))))))

  abbrev pub parts : Components
  parts =
      let unresolved = unresolved_of requirements in
      record {
        readiness = bar_readiness;
        reasons = reasons_of;
        rationale = rationale_of bar_readiness;
        support = support_of o requirements;
        counter = o.counter_evidence_refs;
        blocking = o.blocking_evidence_refs;
        unresolved = unresolved;
        relevant_task_ids = task_ids relevant;
        next_task_ids = next_tasks bar_readiness unresolved relevant;
      }

abbrev pub by_id : InvestigationPlan → List (String × EvidenceRequirement)
by_id plan = requirements_by_id plan.evidence_requirements []

abbrev pub frame_checks :
    InvestigationOpportunity → InvestigationPlan → DecisionFrameSpec → List (Bool × DecisionError)
frame_checks o plan frame =
    (
      not (same_type frame.originating_opportunity_type o.opportunity_type),
      refused "Decision frame crosses opportunity type",
    )
    ∷ (
      has_unknown (map (λ (e : String × EvidenceRequirement). e.0) (by_id plan))
          frame.required_requirement_ids,
      refused "Decision frame references an unknown plan requirement",
    )
    ∷ []

abbrev pub support_checks :
    InvestigationOpportunity → List EvidenceRequirement → List (Bool × DecisionError)
support_checks o requirements =
    (
      not (is_nonempty (support_of o requirements)),
      refused "Decision frame has no validated supporting evidence",
    )
    ∷ []

unfoldable pub components :
    IntelligenceContext
    → InvestigationOpportunity
    → InvestigationPlan
    → DecisionFrameSpec
    → Outcome DecisionError Components
components context o plan frame = do
  checked (frame_checks o plan frame)
  requirements ← requirements_of (by_id plan) frame.required_requirement_ids
  relevant ← relevant_tasks plan frame
  checked (support_checks o requirements)
  ok (parts context o frame requirements relevant)
