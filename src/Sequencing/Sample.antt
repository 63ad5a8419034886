-- ===== src/Sequencing/Sample.antt =====
-- The data of the examples: one opportunity with two tasks and two decisions, and the portfolio that
-- src/intelligence/sequencing.py makes of them.
use pulse_data_platform.Base.{refl, true, false, none, some, [], ◌∷◌, strip}
use pulse_data_platform.Intelligence.{
  InvestigationOpportunity, EvidenceRequirement, InvestigationTask, InvestigationPlan,
  DecisionReadinessAssessment, medium, compare_cohorts, collect_missing_evidence, ready_now,
  blocked_missing_evidence, missing_from_context, needs_more_evidence, boundary_blocked,
  confirmation_leakage, confirmation_investigation_review, investigation_direction,
  missing_required_evidence, human_review_is_required,
}
use pulse_data_platform.Sequencing.Sources.{Sources}
use pulse_data_platform.Sequencing.Items.{
  InvestigationSequencingPortfolio, ready_task_available, EvidenceLeverageItem,
  InvestigationSequenceItem,
}
use pulse_data_platform.Sequencing.Portfolio.{portfolio_limitation}
use pulse_data_platform.Sequencing.Indexed.{IsClean}
use pulse_data_platform.Sequencing.Leverage.{leverage_limitation}
use pulse_data_platform.Sequencing.Sequence.{task_limitation}

abbrev pub funnel : InvestigationOpportunity
funnel = record {
  opportunity_order = 1;
  opportunity_id = "opportunity:leak:all";
  business_id = "shop";
  as_of_date = 9;
  scope_name = "all";
  opportunity_type = confirmation_leakage;
  priority = medium;
  supporting_evidence_refs = "orders" ∷ [];
  counter_evidence_refs = [];
  blocking_evidence_refs = [];
}

abbrev pub cohort : EvidenceRequirement
cohort = record {
  requirement_id = "requirement:cohort";
  name = "Cohort";
  description = "Cohort sizes";
  status = missing_from_context;
  evidence_refs = [];
  source_scope = "orders";
}

abbrev pub comparing : InvestigationTask
comparing = record {
  task_order = 2;
  task_id = "investigation-task:leak:all:compare";
  opportunity_id = "opportunity:leak:all";
  task_kind = compare_cohorts;
  title = "Compare";
  readiness = ready_now;
  required_requirement_ids = "requirement:cohort" ∷ [];
}

abbrev pub collecting : InvestigationTask
collecting = record {
  task_order = 1;
  task_id = "investigation-task:leak:all:collect";
  opportunity_id = "opportunity:leak:all";
  task_kind = collect_missing_evidence;
  title = "Collect";
  readiness = blocked_missing_evidence;
  required_requirement_ids = [];
}

abbrev pub plan : InvestigationPlan
plan = record {
  plan_id = "investigation-plan:leak:all";
  opportunity_id = "opportunity:leak:all";
  business_id = "shop";
  as_of_date = 9;
  tasks = collecting ∷ comparing ∷ [];
  evidence_requirements = cohort ∷ [];
}

abbrev pub open_decision : DecisionReadinessAssessment
open_decision = record {
  decision_order = 1;
  decision_id = "decision-readiness:leak:all:direction";
  business_id = "shop";
  as_of_date = 9;
  originating_opportunity_id = "opportunity:leak:all";
  investigation_plan_id = "investigation-plan:leak:all";
  decision_type = confirmation_investigation_review;
  decision_class = investigation_direction;
  decision_question = "Is it time to review?";
  readiness = needs_more_evidence;
  readiness_reason_codes = missing_required_evidence ∷ human_review_is_required ∷ [];
  rationale_summary = "Cohort sizes are missing.";
  supporting_evidence_refs = "orders" ∷ [];
  counter_evidence_refs = [];
  blocking_evidence_refs = [];
  required_requirement_ids = "requirement:cohort" ∷ [];
  unresolved_requirement_ids = "requirement:cohort" ∷ [];
  relevant_investigation_task_ids =
      "investigation-task:leak:all:collect" ∷ "investigation-task:leak:all:compare" ∷ [];
  next_evidence_task_ids =
      "investigation-task:leak:all:collect" ∷ "investigation-task:leak:all:compare" ∷ [];
  decision_boundary = "Review only.";
  human_review_required = true;
  autonomous_action_allowed = false;
  limitation = "No cause is established.";
}

abbrev pub closed_decision : DecisionReadinessAssessment
closed_decision = record open_decision {
  decision_order = 2;
  decision_id = "decision-readiness:leak:all:change";
  readiness = boundary_blocked;
}

abbrev pub sample : Sources
sample = record {
  context = record { business_id = "shop"; as_of_date = 9; economic_facts = [] };
  evaluation = record { business_id = "shop"; as_of_date = 9; opportunities = funnel ∷ [] };
  investigation = record {
    business_id = "shop";
    as_of_date = 9;
    plans = plan ∷ [];
    evidence_gaps = [];
  };
  decision = record {
    business_id = "shop";
    as_of_date = 9;
    assessments = open_decision ∷ closed_decision ∷ [];
  };
}

pub sample-IsClean : IsClean sample
unfolding strip
sample-IsClean = record {
  business = refl;
  plans = (refl, tt);
  decisions =
      ((refl, (refl, tt), (refl, (refl, tt))), ((refl, (refl, tt), (refl, (refl, tt))), tt));
}

abbrev pub cohort_item : EvidenceLeverageItem
cohort_item = record {
  requirement_id = "requirement:cohort";
  requirement_name = "Cohort";
  description = "Cohort sizes";
  requirement_status = missing_from_context;
  affected_decision_ids = "decision-readiness:leak:all:direction" ∷ [];
  affected_opportunity_ids = "opportunity:leak:all" ∷ [];
  related_task_ids = "investigation-task:leak:all:compare" ∷ [];
  affected_decision_count = 1;
  affected_opportunity_count = 1;
  highest_opportunity_priority = medium;
  shared_across_decisions = false;
  shared_across_opportunities = false;
  existing_gap_id = none;
  limitation = leverage_limitation;
}

abbrev pub comparing_item : InvestigationSequenceItem
comparing_item = record {
  sequence_order = 1;
  task_id = "investigation-task:leak:all:compare";
  investigation_plan_id = "investigation-plan:leak:all";
  opportunity_id = "opportunity:leak:all";
  task_title = "Compare";
  task_kind = compare_cohorts;
  task_readiness = ready_now;
  affected_decision_ids = "decision-readiness:leak:all:direction" ∷ [];
  addressed_requirement_ids = "requirement:cohort" ∷ [];
  affected_decision_count = 1;
  opportunity_priority = medium;
  opportunity_order = 1;
  can_begin_now = true;
  sequencing_reason =
      "This existing analytical task can begin now and could produce evidence relevant to 1 current non-ready decision assessment.";
  limitation = task_limitation;
}

abbrev pub collecting_item : InvestigationSequenceItem
collecting_item = record {
  sequence_order = 2;
  task_id = "investigation-task:leak:all:collect";
  investigation_plan_id = "investigation-plan:leak:all";
  opportunity_id = "opportunity:leak:all";
  task_title = "Collect";
  task_kind = collect_missing_evidence;
  task_readiness = blocked_missing_evidence;
  affected_decision_ids = "decision-readiness:leak:all:direction" ∷ [];
  addressed_requirement_ids = [];
  affected_decision_count = 1;
  opportunity_priority = medium;
  opportunity_order = 1;
  can_begin_now = false;
  sequencing_reason =
      "This existing analytical task could produce evidence relevant to 1 current non-ready decision assessment, but cannot begin now under its existing BLOCKED_MISSING_EVIDENCE status.";
  limitation = task_limitation;
}

abbrev pub derived : InvestigationSequencingPortfolio
derived = record {
  business_id = "shop";
  as_of_date = 9;
  state = ready_task_available;
  evidence_leverage_items = cohort_item ∷ [];
  sequence_items = comparing_item ∷ collecting_item ∷ [];
  top_evidence_focus_requirement_id = some "requirement:cohort";
  recommended_next_task_id = some "investigation-task:leak:all:compare";
  startable_task_count = 1;
  blocked_sequence_task_count = 1;
  targeted_needs_more_evidence_decision_ids = "decision-readiness:leak:all:direction" ∷ [];
  boundary_blocked_decision_ids = "decision-readiness:leak:all:change" ∷ [];
  limitation = portfolio_limitation;
}
