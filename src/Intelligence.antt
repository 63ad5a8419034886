-- ===== src/Intelligence.antt =====
-- What the intelligence layers hand each other: the enumerations and, of the records of
-- src/intelligence/opportunity_models.py, investigation_models.py and context.py, the fields that
-- src/intelligence/decisions.py and sequencing.py read; the records of decision_models.py. A date is
-- a number of days.
use pulse_data_platform.Base.{ℕ, String, Bool, true, false, List}

pub data OpportunityPriority : Type 0 where
  high medium low : OpportunityPriority

pub data InvestigationTaskKind : Type 0 where
  validate_existing_evidence resolve_data_quality compare_cohorts : InvestigationTaskKind
  reconcile_measurement collect_missing_evidence : InvestigationTaskKind

pub data InvestigationReadiness : Type 0 where
  ready_now partially_ready blocked_missing_evidence blocked_boundary : InvestigationReadiness

pub data EvidenceRequirementStatus : Type 0 where
  available missing_from_context partial blocked_by_boundary : EvidenceRequirementStatus

pub data DecisionReadiness : Type 0 where
  ready_for_human_review needs_more_evidence boundary_blocked : DecisionReadiness

pub data DecisionClass : Type 0 where
  investigation_direction business_change_consideration : DecisionClass
  measurement_governance financial_decision : DecisionClass

pub data DecisionType : Type 0 where
  confirmation_investigation_review : DecisionType
  confirmation_operational_change_consideration : DecisionType
  acquisition_fulfillment_investigation_direction campaign_change_consideration : DecisionType
  measurement_reconciliation_review measurement_use_readiness : DecisionType
  acquisition_efficiency_investigation_review : DecisionType
  acquisition_efficiency_campaign_change_consideration trusted_economics_review : DecisionType

pub data ReadinessReasonCode : Type 0 where
  sufficient_current_evidence missing_required_evidence : ReadinessReasonCode
  open_critical_investigation counter_evidence_present : ReadinessReasonCode
  data_quality_limitation causal_uncertainty measurement_unresolved : ReadinessReasonCode
  economic_boundary human_review_is_required : ReadinessReasonCode

-- `readiness.value`
abbrev pub readiness_value : InvestigationReadiness → String
readiness_value ready_now = "READY_NOW"
readiness_value partially_ready = "PARTIALLY_READY"
readiness_value blocked_missing_evidence = "BLOCKED_MISSING_EVIDENCE"
readiness_value blocked_boundary = "BLOCKED_BOUNDARY"

abbrev pub is_ready_now : InvestigationReadiness → Bool
is_ready_now ready_now = true
is_ready_now _ = false

abbrev pub is_for_review : DecisionReadiness → Bool
is_for_review ready_for_human_review = true
is_for_review _ = false

abbrev pub needs_evidence : DecisionReadiness → Bool
needs_evidence needs_more_evidence = true
needs_evidence _ = false

abbrev pub is_at_boundary : DecisionReadiness → Bool
is_at_boundary boundary_blocked = true
is_at_boundary _ = false

abbrev pub same_status : EvidenceRequirementStatus → EvidenceRequirementStatus → Bool
same_status available available = true
same_status missing_from_context missing_from_context = true
same_status partial partial = true
same_status blocked_by_boundary blocked_by_boundary = true
same_status _ _ = false

-- _PRIORITY_ORDER
abbrev pub priority_order : OpportunityPriority → ℕ
priority_order high = 0
priority_order medium = 1
priority_order low = 2

-- A fact of an EvidenceItem: a text, or a value that no text is equal to.
pub data Fact : Type 0 where
  fact_text : String → Fact
  fact_value : Fact

-- `economic_facts` is `economic_status.facts`.
pub record IntelligenceContext : Type 0 where
  pub business_id : String
  pub as_of_date : ℕ
  pub economic_facts : List (String × Fact)

pub data OpportunityType : Type 0 where
  acquisition_fulfillment_misalignment confirmation_leakage : OpportunityType
  measurement_reconciliation acquisition_efficiency_review : OpportunityType

pub record InvestigationOpportunity : Type 0 where
  pub opportunity_order : ℕ
  pub opportunity_id : String
  pub business_id : String
  pub as_of_date : ℕ
  pub scope_name : String
  pub opportunity_type : OpportunityType
  pub priority : OpportunityPriority
  pub supporting_evidence_refs : List String
  pub counter_evidence_refs : List String
  pub blocking_evidence_refs : List String

pub record OpportunityEvaluation : Type 0 where
  pub business_id : String
  pub as_of_date : ℕ
  pub opportunities : List InvestigationOpportunity

pub record EvidenceRequirement : Type 0 where
  pub requirement_id : String
  pub name : String
  pub description : String
  pub status : EvidenceRequirementStatus
  pub evidence_refs : List String
  pub source_scope : String

pub record InvestigationTask : Type 0 where
  pub task_order : ℕ
  pub task_id : String
  pub opportunity_id : String
  pub task_kind : InvestigationTaskKind
  pub title : String
  pub readiness : InvestigationReadiness
  pub required_requirement_ids : List String

pub record InvestigationPlan : Type 0 where
  pub plan_id : String
  pub opportunity_id : String
  pub business_id : String
  pub as_of_date : ℕ
  pub tasks : List InvestigationTask
  pub evidence_requirements : List EvidenceRequirement

pub record EvidenceGap : Type 0 where
  pub gap_id : String
  pub requirement_id : String

pub record InvestigationPortfolio : Type 0 where
  pub business_id : String
  pub as_of_date : ℕ
  pub plans : List InvestigationPlan
  pub evidence_gaps : List EvidenceGap

pub record DecisionReadinessAssessment : Type 0 where
  pub decision_order : ℕ
  pub decision_id : String
  pub business_id : String
  pub as_of_date : ℕ
  pub originating_opportunity_id : String
  pub investigation_plan_id : String
  pub decision_type : DecisionType
  pub decision_class : DecisionClass
  pub decision_question : String
  pub readiness : DecisionReadiness
  pub readiness_reason_codes : List ReadinessReasonCode
  pub rationale_summary : String
  pub supporting_evidence_refs : List String
  pub counter_evidence_refs : List String
  pub blocking_evidence_refs : List String
  pub required_requirement_ids : List String
  pub unresolved_requirement_ids : List String
  pub relevant_investigation_task_ids : List String
  pub next_evidence_task_ids : List String
  pub decision_boundary : String
  pub human_review_required : Bool
  pub autonomous_action_allowed : Bool
  pub limitation : String

pub record DecisionReadinessPortfolio : Type 0 where
  pub business_id : String
  pub as_of_date : ℕ
  pub assessments : List DecisionReadinessAssessment
