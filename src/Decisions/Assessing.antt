-- ===== src/Decisions/Assessing.antt =====
-- `assess_decision_frame` of src/intelligence/decisions.py from the test of the plan's identity to
-- the constructor, and `stable_decision_id` of src/intelligence/decision_models.py.
use Prim.Native.Char.{code}
use Prim.Native.String.{[] as «ε», ◌∷◌ as ◌∷ᶜ◌, ◌++◌ as ◌<>◌}
use pulse_data_platform.Base.{
  ℕ, String, Bool, true, false, not, ◌&&◌, ◌||◌, List, [], ◌∷◌, strip, is_empty, str_eq, ◌==◌,
  Outcome, ok, ◌>>=◌, ◌>>◌, checked, if◌then◌else◌,
}
use pulse_data_platform.Sequencing.Items.{is_slug}
use pulse_data_platform.Intelligence.{
  OpportunityType, acquisition_fulfillment_misalignment, confirmation_leakage,
  measurement_reconciliation, acquisition_efficiency_review, IntelligenceContext,
  InvestigationOpportunity, InvestigationPlan, DecisionReadinessAssessment,
}
use pulse_data_platform.Decisions.Frames.{DecisionFrameSpec}
use pulse_data_platform.Decisions.Components.{Components, components}
use pulse_data_platform.Decisions.Evidence.{DecisionError, refused}
use pulse_data_platform.Decisions.Contracts.{decision_assessment}

-- `opportunity_type.value`
abbrev pub type_value : OpportunityType → String
type_value acquisition_fulfillment_misalignment = "ACQUISITION_FULFILLMENT_MISALIGNMENT"
type_value confirmation_leakage = "CONFIRMATION_LEAKAGE"
type_value measurement_reconciliation = "MEASUREMENT_RECONCILIATION"
type_value acquisition_efficiency_review = "ACQUISITION_EFFICIENCY_REVIEW"

-- `re.sub(r"[^a-z0-9_-]+", "-", s)`; a run of other characters has begun or has not.
unfoldable pub dash_runs : Bool → String → String
dash_runs begun «ε» = «ε»
dash_runs begun (c ∷ᶜ s) =
    let kept = is_slug (code c) in
    let rest = dash_runs (not kept) s in
    if kept then c ∷ᶜ rest else if begun then rest else "-" <> rest

abbrev is_dash : ℕ → Bool
is_dash c = c == 45 || c == 95

-- `s.strip("-_")`
unfoldable pub lstrip_dashes : String → String
lstrip_dashes «ε» = «ε»
lstrip_dashes (c ∷ᶜ s) = let rest = lstrip_dashes s in if is_dash (code c) then rest else c ∷ᶜ s

unfoldable pub rstrip_dashes : String → String
rstrip_dashes «ε» = «ε»
rstrip_dashes (c ∷ᶜ s) =
    let rest = rstrip_dashes s in if is_empty rest && is_dash (code c) then «ε» else c ∷ᶜ rest

abbrev pub assessment_draft :
    IntelligenceContext
    → InvestigationOpportunity
    → InvestigationPlan
    → DecisionFrameSpec
    → ℕ
    → String
    → Components
    → DecisionReadinessAssessment
assessment_draft context o plan frame order id p = record {
  decision_order = order;
  decision_id = id;
  business_id = context.business_id;
  as_of_date = context.as_of_date;
  originating_opportunity_id = o.opportunity_id;
  investigation_plan_id = plan.plan_id;
  decision_type = frame.decision_type;
  decision_class = frame.decision_class;
  decision_question = frame.decision_question;
  readiness = p.readiness;
  readiness_reason_codes = p.reasons;
  rationale_summary = p.rationale;
  supporting_evidence_refs = p.support;
  counter_evidence_refs = p.counter;
  blocking_evidence_refs = p.blocking;
  required_requirement_ids = frame.required_requirement_ids;
  unresolved_requirement_ids = p.unresolved;
  relevant_investigation_task_ids = p.relevant_task_ids;
  next_evidence_task_ids = p.next_task_ids;
  decision_boundary = frame.decision_boundary;
  human_review_required = true;
  autonomous_action_allowed = false;
  limitation = frame.limitation;
}

abbrev pub plan_checks :
    IntelligenceContext → InvestigationOpportunity → InvestigationPlan → List (Bool × DecisionError)
plan_checks context o plan =
    (
      not (str_eq plan.opportunity_id o.opportunity_id)
          || not (str_eq plan.business_id context.business_id)
          || not (plan.as_of_date == context.as_of_date),
      refused "Decision frame crosses plan or context identity",
    )
    ∷ []

-- `lower` is `str.lower`; `order` is `decision_order`.
module _ (lower : String → String) where
  -- `_slug`
  abbrev pub slug_of : String → Outcome DecisionError String
  slug_of value =
      let slug = rstrip_dashes (lstrip_dashes (dash_runs false (lower (strip value)))) in
      checked ((is_empty slug, refused "Stable decision identity cannot be empty") ∷ []) >> ok slug

  unfoldable pub stable_decision_id : String → String → String → Outcome DecisionError String
  stable_decision_id opportunity_type scope frame_id = do
    a ← slug_of opportunity_type
    b ← slug_of scope
    c ← slug_of frame_id
    ok ("decision-readiness:" <> (a <> (":" <> (b <> (":" <> c)))))

  unfoldable pub frame_assessment :
      IntelligenceContext
      → InvestigationOpportunity
      → InvestigationPlan
      → DecisionFrameSpec
      → ℕ
      → Outcome DecisionError DecisionReadinessAssessment
  frame_assessment context o plan frame order = do
    checked (plan_checks context o plan)
    p ← components context o plan frame
    id ← stable_decision_id (type_value o.opportunity_type) o.scope_name frame.frame_id
    decision_assessment (assessment_draft context o plan frame order id p)
