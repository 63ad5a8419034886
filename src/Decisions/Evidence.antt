-- ===== src/Decisions/Evidence.antt =====
-- The tests, the lookups and the texts of `_components` and `_relevant_tasks` in
-- src/intelligence/decisions.py.
use Prim.Native.Char.{code}
use Prim.Native.String.{[] as «ε», ◌∷◌ as ◌∷ᶜ◌}
use pulse_data_platform.Base.{
  String, Bool, true, false, not, ◌&&◌, ◌||◌, Option, none, some, List, [], ◌∷◌, ◌++◌, map, any,
  select, str_eq, ◌==◌, Outcome, ok, err, ◌>>=◌, ◌>>◌, checked, if◌then◌else◌,
}
use pulse_data_platform.Base.Dicts.{get, store}
use pulse_data_platform.Sequencing.Graph.{member, has_unknown}
use pulse_data_platform.Sequencing.Leverage.{append_unique}
use pulse_data_platform.Intelligence.{
  OpportunityType, acquisition_fulfillment_misalignment, confirmation_leakage,
  measurement_reconciliation, acquisition_efficiency_review, DecisionClass,
  business_change_consideration, DecisionType, measurement_use_readiness, ReadinessReasonCode,
  EvidenceRequirementStatus, available, blocked_by_boundary, DecisionReadiness,
  ready_for_human_review, needs_more_evidence, boundary_blocked, is_for_review, Fact, fact_text,
  fact_value, IntelligenceContext, InvestigationOpportunity, EvidenceRequirement, InvestigationTask,
  InvestigationPlan,
}
use pulse_data_platform.Sequencing.Validation.{is_nonempty}
use pulse_data_platform.Decisions.Frames.{
  CounterEvidenceBehavior, prevent_readiness, allow_if_disclosed, BlockerBehavior,
  blockers_prevent_readiness, allow_contextual, BoundaryBehavior, standard,
  require_trusted_economics, DecisionFrameSpec,
}

-- A DecisionValidationError with its message, or a KeyError.
pub data DecisionError : Type 0 where
  refused : String → DecisionError
  no_key : DecisionError

abbrev pub same_type : OpportunityType → OpportunityType → Bool
same_type acquisition_fulfillment_misalignment acquisition_fulfillment_misalignment = true
same_type confirmation_leakage confirmation_leakage = true
same_type measurement_reconciliation measurement_reconciliation = true
same_type acquisition_efficiency_review acquisition_efficiency_review = true
same_type _ _ = false

abbrev pub is_available : EvidenceRequirementStatus → Bool
is_available available = true
is_available _ = false

abbrev is_bounded : EvidenceRequirementStatus → Bool
is_bounded blocked_by_boundary = true
is_bounded _ = false

abbrev requires_economics : BoundaryBehavior → Bool
requires_economics require_trusted_economics = true
requires_economics standard = false

abbrev pub prevents : CounterEvidenceBehavior → Bool
prevents prevent_readiness = true
prevents allow_if_disclosed = false

abbrev pub blocks : BlockerBehavior → Bool
blocks blockers_prevent_readiness = true
blocks allow_contextual = false

abbrev pub is_change : DecisionClass → Bool
is_change business_change_consideration = true
is_change _ = false

abbrev pub is_measurement_use : DecisionType → Bool
is_measurement_use measurement_use_readiness = true
is_measurement_use _ = false

-- What follows the last colon, where `kept` follows the last one read.
unfoldable pub after_colon : String → String → String
after_colon kept «ε» = kept
after_colon kept (c ∷ᶜ s) = after_colon (if code c == 58 then s else kept) s

abbrev pub task_key : String → String
task_key id = after_colon id id

abbrev pub key_of : InvestigationTask → String
key_of t = task_key t.task_id

abbrev pub task_checks : InvestigationPlan → DecisionFrameSpec → List (Bool × DecisionError)
task_checks plan frame =
    (
      has_unknown (map key_of plan.tasks) frame.relevant_task_keys,
      refused "Decision frame references an unknown investigation task",
    )
    ∷ []

abbrev pub is_relevant : DecisionFrameSpec → InvestigationTask → Bool
is_relevant frame t = member (key_of t) frame.relevant_task_keys

unfoldable pub relevant_tasks :
    InvestigationPlan → DecisionFrameSpec → Outcome DecisionError (List InvestigationTask)
relevant_tasks plan frame =
    checked (task_checks plan frame) >> ok (select (is_relevant frame) plan.tasks)

-- `requirement_by_id`, from the entries it has; the last requirement of an identity stays.
unfoldable pub requirements_by_id :
    List EvidenceRequirement
    → List (String × EvidenceRequirement)
    → List (String × EvidenceRequirement)
requirements_by_id [] d = d
requirements_by_id (r ∷ rs) d = requirements_by_id rs (store str_eq r.requirement_id r d)

abbrev lookup : Option EvidenceRequirement → Outcome DecisionError EvidenceRequirement
lookup none = err no_key
lookup (some r) = ok r

-- `tuple(requirement_by_id[item] for item in ids)`
unfoldable pub requirements_of :
    List (String × EvidenceRequirement)
    → List String
    → Outcome DecisionError (List EvidenceRequirement)
requirements_of d [] = ok []
requirements_of d (id ∷ ids) =
    lookup (get str_eq id d) >>= λ r. requirements_of d ids >>= λ rs. ok (r ∷ rs)

abbrev pub is_unmet : EvidenceRequirement → Bool
is_unmet r = not (is_available r.status)

abbrev pub unresolved_of : List EvidenceRequirement → List String
unresolved_of rs = map (λ (r : EvidenceRequirement). r.requirement_id) (select is_unmet rs)

abbrev is_fx_required : Option Fact → Bool
is_fx_required none = false
is_fx_required (some fact_value) = false
is_fx_required (some (fact_text s)) = str_eq s "FX_REQUIRED"

abbrev pub is_boundary_blocked :
    IntelligenceContext → DecisionFrameSpec → List EvidenceRequirement → Bool
is_boundary_blocked context frame requirements =
    any (λ (r : EvidenceRequirement). is_bounded r.status) requirements
    || requires_economics frame.boundary_behavior
      && is_fx_required (get str_eq "economic_status" context.economic_facts)

abbrev pub readiness_of : (boundary_blocked further : Bool) → DecisionReadiness
readiness_of true further = boundary_blocked
readiness_of false further = if further then needs_more_evidence else ready_for_human_review

abbrev pub noted : Bool → ReadinessReasonCode → List ReadinessReasonCode
noted true reason = reason ∷ []
noted false reason = []

-- `tuple(dict.fromkeys(values))`, after those in `seen`.
unfoldable pub from_keys : List String → List String → List String
from_keys seen [] = seen
from_keys seen (x ∷ xs) = from_keys (append_unique seen x) xs

abbrev pub ready_rationale : String
ready_rationale =
    "The current validated aggregate requirements meet this frame's bounded evidence bar. Human review remains required and no option is selected."

abbrev pub boundary_rationale : String
boundary_rationale =
    "The explicit economic boundary prevents responsible review of this frame under the current validated context."

abbrev pub open_rationale : String
open_rationale =
    "Further evidence is required before this decision can be responsibly reviewed. Investigation tasks identify analytical work that could raise readiness."

abbrev pub rationale_of : DecisionReadiness → String
rationale_of ready_for_human_review = ready_rationale
rationale_of boundary_blocked = boundary_rationale
rationale_of needs_more_evidence = open_rationale

abbrev pub task_ids : List InvestigationTask → List String
task_ids ts = map (λ (t : InvestigationTask). t.task_id) ts

abbrev pub addresses : List String → InvestigationTask → Bool
addresses unresolved t = any (λ r. member r unresolved) t.required_requirement_ids

-- `next_tasks`
abbrev pub next_tasks : DecisionReadiness → List String → List InvestigationTask → List String
next_tasks readiness unresolved relevant =
    let direct = task_ids (select (addresses unresolved) relevant) in
    if not (is_for_review readiness) && not (is_nonempty direct) then task_ids relevant else direct

abbrev pub requirement_refs : List EvidenceRequirement → List String
requirement_refs [] = []
requirement_refs (r ∷ rs) = r.evidence_refs ++ requirement_refs rs

abbrev pub is_excluded : InvestigationOpportunity → String → Bool
is_excluded o ref = member ref (o.counter_evidence_refs ++ o.blocking_evidence_refs)

-- `support`
abbrev pub support_of : InvestigationOpportunity → List EvidenceRequirement → List String
support_of o requirements =
    select (λ ref. not (is_excluded o ref))
      (from_keys [] (o.supporting_evidence_refs ++ requirement_refs requirements))
