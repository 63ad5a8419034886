-- ===== src/Decisions/Frames.antt =====
-- The frames of src/intelligence/decisions.py.
use pulse_data_platform.Base.{ℕ, String, Bool, List}
use pulse_data_platform.Intelligence.{OpportunityType, DecisionType, DecisionClass}

pub data CounterEvidenceBehavior : Type 0 where
  prevent_readiness allow_if_disclosed : CounterEvidenceBehavior

pub data BlockerBehavior : Type 0 where
  blockers_prevent_readiness allow_contextual : BlockerBehavior

pub data BoundaryBehavior : Type 0 where
  standard require_trusted_economics : BoundaryBehavior

pub record DecisionFrameSpec : Type 0 where
  pub frame_order : ℕ
  pub frame_id : String
  pub originating_opportunity_type : OpportunityType
  pub decision_type : DecisionType
  pub decision_class : DecisionClass
  pub decision_question : String
  pub required_requirement_ids : List String
  pub relevant_task_keys : List String
  pub counter_evidence_behavior : CounterEvidenceBehavior
  pub blocker_behavior : BlockerBehavior
  pub boundary_behavior : BoundaryBehavior
  pub require_ready_task : Bool
  pub rationale_design : String
  pub decision_boundary : String
  pub limitation : String
