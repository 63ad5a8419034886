-- ===== src/Decisions/Examples.antt =====
-- The readiness of src/intelligence/decisions.py at one opportunity with one frame.
use pulse_data_platform.Base.{
  ◌≡◌, refl, String, true, false, not, ◌&&◌, [], ◌∷◌, any, All, str_eq, ok, checked, strip,
  is_blank, if◌then◌else◌,
}
use pulse_data_platform.Base.Dicts.{get, store}
use pulse_data_platform.Base.Regex.{full_match, ends, fold_case, lit, repeat}
use pulse_data_platform.Sequencing.Validation.{assessment_checks, is_nonempty}
use pulse_data_platform.Intelligence.{
  confirmation_leakage, high, validate_existing_evidence, ready_now, available, partial, fact_text,
  ready_for_human_review, needs_more_evidence, sufficient_current_evidence,
  missing_required_evidence, open_critical_investigation, human_review_is_required,
  data_quality_limitation, confirmation_investigation_review, investigation_direction,
  is_for_review, is_ready_now, IntelligenceContext, InvestigationOpportunity, EvidenceRequirement,
  InvestigationTask, InvestigationPlan, DecisionReadinessAssessment,
}
use pulse_data_platform.Decisions.Frames.{DecisionFrameSpec}
use pulse_data_platform.Decisions.Registry.{confirmation_investigation_review_frame}
use pulse_data_platform.Decisions.Components.{components}
use pulse_data_platform.Decisions.Evidence.{
  is_relevant, prevents, blocks, ready_rationale, open_rationale, requirements_by_id,
  requirements_of, relevant_tasks, after_colon, from_keys,
}
use pulse_data_platform.Decisions.Assessing.{
  frame_assessment, stable_decision_id, rstrip_dashes, lstrip_dashes, dash_runs,
}
use pulse_data_platform.Decisions.Contracts.{decision_assessment, assessment_rules}
use pulse_data_platform.Decisions.Review.{
  HasAvailable, frame_assessment_reviewable, frame_assessment-next,
}
use pulse_data_platform.Decisions.Handed.{AreStripped, frame_assessment_handed}

-- `str.lower` at the texts here.
abbrev lower : String → String
lower s = if str_eq s "CONFIRMATION_LEAKAGE" then "confirmation_leakage" else s

abbrev shop_context : IntelligenceContext
shop_context = record {
  business_id = "shop";
  as_of_date = 9;
  economic_facts = ("economic_status", fact_text "FX_REQUIRED") ∷ [];
}

abbrev leak : InvestigationOpportunity
leak = record {
  opportunity_order = 1;
  opportunity_id = "opportunity:leak:all";
  business_id = "shop";
  as_of_date = 9;
  scope_name = "all";
  opportunity_type = confirmation_leakage;
  priority = high;
  supporting_evidence_refs = "orders" ∷ "orders" ∷ [];
  counter_evidence_refs = [];
  blocking_evidence_refs = "stale" ∷ [];
}

abbrev baseline : EvidenceRequirement
baseline = record {
  requirement_id = "requirement:confirmation_gap_baseline";
  name = "Baseline";
  description = "Confirmation gap";
  status = available;
  evidence_refs = "gap" ∷ "stale" ∷ [];
  source_scope = "orders";
}

abbrev validating : InvestigationTask
validating = record {
  task_order = 1;
  task_id = "investigation-task:leak:all:validate-confirmation-baseline";
  opportunity_id = "opportunity:leak:all";
  task_kind = validate_existing_evidence;
  title = "Validate";
  readiness = ready_now;
  required_requirement_ids = "requirement:confirmation_gap_baseline" ∷ [];
}

abbrev plan : InvestigationPlan
plan = record {
  plan_id = "investigation-plan:leak:all";
  opportunity_id = "opportunity:leak:all";
  business_id = "shop";
  as_of_date = 9;
  tasks = validating ∷ [];
  evidence_requirements = baseline ∷ [];
}

abbrev frame : DecisionFrameSpec
frame = confirmation_investigation_review_frame

abbrev ready_assessment : DecisionReadinessAssessment
ready_assessment = record {
  decision_order = 1;
  decision_id = "decision-readiness:confirmation_leakage:all:confirmation-investigation-review";
  business_id = "shop";
  as_of_date = 9;
  originating_opportunity_id = "opportunity:leak:all";
  investigation_plan_id = "investigation-plan:leak:all";
  decision_type = confirmation_investigation_review;
  decision_class = investigation_direction;
  decision_question = frame.decision_question;
  readiness = ready_for_human_review;
  readiness_reason_codes =
      sufficient_current_evidence ∷ data_quality_limitation ∷ human_review_is_required ∷ [];
  rationale_summary = ready_rationale;
  supporting_evidence_refs = "orders" ∷ "gap" ∷ [];
  counter_evidence_refs = [];
  blocking_evidence_refs = "stale" ∷ [];
  required_requirement_ids = "requirement:confirmation_gap_baseline" ∷ [];
  unresolved_requirement_ids = [];
  relevant_investigation_task_ids =
      "investigation-task:leak:all:validate-confirmation-baseline" ∷ [];
  next_evidence_task_ids = [];
  decision_boundary = frame.decision_boundary;
  human_review_required = true;
  autonomous_action_allowed = false;
  limitation = frame.limitation;
}

frame_assessment_ready : frame_assessment lower shop_context leak plan frame 1 ≡ ok ready_assessment
unfolding frame_assessment components requirements_by_id store requirements_of get relevant_tasks
    after_colon from_keys stable_decision_id rstrip_dashes lstrip_dashes dash_runs strip
    decision_assessment assessment_rules is_blank full_match ends fold_case lit repeat
frame_assessment_ready = refl

-- The baseline is there in part: more evidence is needed, and the task is named.
abbrev open_plan : InvestigationPlan
open_plan = record plan { evidence_requirements = record baseline { status = partial } ∷ [] }

abbrev open_assessment : DecisionReadinessAssessment
open_assessment = record ready_assessment {
  readiness = needs_more_evidence;
  readiness_reason_codes =
      missing_required_evidence ∷ data_quality_limitation ∷ open_critical_investigation
      ∷ human_review_is_required ∷ [];
  rationale_summary = open_rationale;
  unresolved_requirement_ids = "requirement:confirmation_gap_baseline" ∷ [];
  next_evidence_task_ids = "investigation-task:leak:all:validate-confirmation-baseline" ∷ [];
}

frame_assessment_open :
    frame_assessment lower shop_context leak open_plan frame 1 ≡ ok open_assessment
unfolding frame_assessment components requirements_by_id store requirements_of get relevant_tasks
    after_colon from_keys stable_decision_id rstrip_dashes lstrip_dashes dash_runs strip
    decision_assessment assessment_rules is_blank full_match ends fold_case lit repeat
frame_assessment_open = refl

frame_assessment_reviewable_example :
    All (HasAvailable plan) ("requirement:confirmation_gap_baseline" ∷ [])
    × (ready_assessment.unresolved_requirement_ids ≡ [])
    × ((is_nonempty [] && prevents frame.counter_evidence_behavior) ≡ false)
    × ((is_nonempty ("stale" ∷ []) && blocks frame.blocker_behavior) ≡ false)
    × ((true
          && not (
              any
                (λ (t : InvestigationTask). is_ready_now t.readiness && is_relevant frame t)
                (validating ∷ [])))
        ≡ false)
frame_assessment_reviewable_example =
    frame_assessment_reviewable lower shop_context leak plan frame 1 ready_assessment
      frame_assessment_ready refl

frame_assessment-next_example :
    is_nonempty ("investigation-task:leak:all:validate-confirmation-baseline" ∷ [])
    ≡ not (is_for_review needs_more_evidence)
frame_assessment-next_example =
    frame_assessment-next lower shop_context leak open_plan frame 1 open_assessment
      frame_assessment_open

sample_stripped : AreStripped shop_context leak open_plan frame
unfolding strip
sample_stripped = record {
  business = refl;
  opportunity = refl;
  plan_id = refl;
  tasks = (refl, tt);
  requirements = (refl, tt);
}

frame_assessment_handed_example :
    checked (
      assessment_checks shop_context
        (("opportunity:leak:all", leak) ∷ [])
        (("investigation-plan:leak:all", open_plan) ∷ [])
        open_assessment)
    ≡ ok tt
unfolding get
frame_assessment_handed_example =
    frame_assessment_handed lower shop_context leak open_plan frame 1
      (("opportunity:leak:all", leak) ∷ []) (("investigation-plan:leak:all", open_plan) ∷ [])
      open_assessment sample_stripped refl refl frame_assessment_open
