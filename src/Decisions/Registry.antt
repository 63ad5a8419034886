-- ===== src/Decisions/Registry.antt =====
-- DECISION_FRAME_REGISTRY and FINANCIAL_BOUNDARY_FRAME of src/intelligence/decisions.py.
use pulse_data_platform.Base.{true, List, [], ◌∷◌}
use pulse_data_platform.Intelligence.{
  OpportunityType, acquisition_fulfillment_misalignment, confirmation_leakage,
  measurement_reconciliation, acquisition_efficiency_review, investigation_direction,
  business_change_consideration, measurement_governance, financial_decision,
  confirmation_investigation_review, confirmation_operational_change_consideration,
  acquisition_fulfillment_investigation_direction, campaign_change_consideration,
  measurement_reconciliation_review, measurement_use_readiness,
  acquisition_efficiency_investigation_review, acquisition_efficiency_campaign_change_consideration,
  trusted_economics_review,
}
use pulse_data_platform.Decisions.Frames.{
  DecisionFrameSpec, prevent_readiness, allow_if_disclosed, blockers_prevent_readiness,
  allow_contextual, standard, require_trusted_economics,
}

abbrev pub confirmation_investigation_review_frame : DecisionFrameSpec
confirmation_investigation_review_frame = record {
  frame_order = 1;
  frame_id = "confirmation-investigation-review";
  originating_opportunity_type = confirmation_leakage;
  decision_type = confirmation_investigation_review;
  decision_class = investigation_direction;
  decision_question =
      "Is current evidence sufficient to prioritize confirmation leakage for human investigation review?";
  required_requirement_ids = "requirement:confirmation_gap_baseline" ∷ [];
  relevant_task_keys = "validate-confirmation-baseline" ∷ [];
  counter_evidence_behavior = prevent_readiness;
  blocker_behavior = allow_contextual;
  boundary_behavior = standard;
  require_ready_task = true;
  rationale_design =
      "Validated confirmation-gap evidence and an investigation that can begin now form the bounded review bar.";
  decision_boundary =
      "This readiness assessment supports human investigation review only and does not authorize a change to the confirmation process.";
  limitation =
      "The observed confirmation gap does not establish its cause or select an operational response.";
}

abbrev confirmation_operational_change_consideration_frame : DecisionFrameSpec
confirmation_operational_change_consideration_frame = record {
  frame_order = 2;
  frame_id = "confirmation-operational-change-consideration";
  originating_opportunity_type = confirmation_leakage;
  decision_type = confirmation_operational_change_consideration;
  decision_class = business_change_consideration;
  decision_question =
      "Is current evidence sufficient to consider an operational change to the confirmation process?";
  required_requirement_ids =
      "requirement:confirmation_gap_baseline" ∷ "requirement:confirmation_dispositions"
      ∷ "requirement:campaign_offer_mix" ∷ "requirement:upstream_order_cohorts" ∷ [];
  relevant_task_keys =
      "validate-confirmation-baseline" ∷ "segment-confirmation-dispositions"
      ∷ "compare-offer-upstream-cohorts" ∷ [];
  counter_evidence_behavior = prevent_readiness;
  blocker_behavior = blockers_prevent_readiness;
  boundary_behavior = standard;
  require_ready_task = true;
  rationale_design =
      "Operational-change review requires the baseline, dispositions, and competing cohort explanations.";
  decision_boundary =
      "Human review may consider the bounded question only; this assessment does not authorize or select an operational change.";
  limitation =
      "Observational evidence cannot establish why the gap exists or predict an outcome from a change.";
}

abbrev acquisition_fulfillment_investigation_direction_frame : DecisionFrameSpec
acquisition_fulfillment_investigation_direction_frame = record {
  frame_order = 1;
  frame_id = "acquisition-fulfillment-investigation-direction";
  originating_opportunity_type = acquisition_fulfillment_misalignment;
  decision_type = acquisition_fulfillment_investigation_direction;
  decision_class = investigation_direction;
  decision_question =
      "Is current evidence sufficient to determine which acquisition, offer, or fulfillment area deserves deeper investigation first?";
  required_requirement_ids =
      "requirement:campaign_downstream_peer_evidence" ∷ "requirement:campaign_offer_mix"
      ∷ "requirement:adgroup_downstream_cohorts" ∷ [];
  relevant_task_keys =
      "validate-peer-pattern" ∷ "compare-offer-mix" ∷ "compare-adgroup-cohorts" ∷ [];
  counter_evidence_behavior = allow_if_disclosed;
  blocker_behavior = blockers_prevent_readiness;
  boundary_behavior = standard;
  require_ready_task = true;
  rationale_design =
      "Direction review requires peer evidence plus offer and below-campaign cohorts that distinguish domains.";
  decision_boundary =
      "This assessment can prioritize a domain for human investigation but cannot attribute cause or authorize a campaign, offer, or fulfillment change.";
  limitation = "Campaign peer differences are observational and do not identify their cause.";
}

abbrev campaign_change_consideration_frame : DecisionFrameSpec
campaign_change_consideration_frame = record {
  frame_order = 2;
  frame_id = "campaign-change-consideration";
  originating_opportunity_type = acquisition_fulfillment_misalignment;
  decision_type = campaign_change_consideration;
  decision_class = business_change_consideration;
  decision_question =
      "Is current evidence sufficient to consider a campaign spend or setup change?";
  required_requirement_ids =
      "requirement:campaign_downstream_peer_evidence" ∷ "requirement:campaign_offer_mix"
      ∷ "requirement:adgroup_downstream_cohorts" ∷ [];
  relevant_task_keys =
      "validate-peer-pattern" ∷ "compare-offer-mix" ∷ "compare-adgroup-cohorts" ∷ [];
  counter_evidence_behavior = prevent_readiness;
  blocker_behavior = blockers_prevent_readiness;
  boundary_behavior = standard;
  require_ready_task = true;
  rationale_design =
      "Campaign-change review requires evidence that can distinguish competing explanations, not peer differences alone.";
  decision_boundary =
      "Human review of the question does not authorize, select, or execute any spend or setup change.";
  limitation =
      "Current observational comparisons cannot establish causal impact or forecast a campaign outcome.";
}

abbrev measurement_reconciliation_review_frame : DecisionFrameSpec
measurement_reconciliation_review_frame = record {
  frame_order = 1;
  frame_id = "measurement-reconciliation-review";
  originating_opportunity_type = measurement_reconciliation;
  decision_type = measurement_reconciliation_review;
  decision_class = measurement_governance;
  decision_question = "Is current evidence sufficient to prioritize measurement reconciliation?";
  required_requirement_ids = "requirement:platform_observed_gap" ∷ [];
  relevant_task_keys = "validate-measurement-gap" ∷ [];
  counter_evidence_behavior = allow_if_disclosed;
  blocker_behavior = allow_contextual;
  boundary_behavior = standard;
  require_ready_task = true;
  rationale_design =
      "A validated platform-versus-observed gap is sufficient for bounded reconciliation review.";
  decision_boundary =
      "Current evidence supports measurement reconciliation review but not an interpretation of the gap as operational loss, fraud, or tracking failure.";
  limitation = "The aggregate difference does not establish operational loss or financial impact.";
}

abbrev measurement_use_readiness_frame : DecisionFrameSpec
measurement_use_readiness_frame = record {
  frame_order = 2;
  frame_id = "measurement-use-readiness";
  originating_opportunity_type = measurement_reconciliation;
  decision_type = measurement_use_readiness;
  decision_class = measurement_governance;
  decision_question =
      "Is platform conversion evidence sufficiently reconciled for use in downstream business decisions?";
  required_requirement_ids =
      "requirement:platform_observed_gap" ∷ "requirement:platform_event_definition"
      ∷ "requirement:lightfunnels_inclusion_rules" ∷ [];
  relevant_task_keys =
      "validate-measurement-gap" ∷ "reconcile-platform-semantics" ∷ "reconcile-observed-inclusion"
      ∷ [];
  counter_evidence_behavior = prevent_readiness;
  blocker_behavior = blockers_prevent_readiness;
  boundary_behavior = standard;
  require_ready_task = true;
  rationale_design =
      "Downstream use requires both sides of the measurement semantics to be documented and reconciled.";
  decision_boundary =
      "Readiness for downstream use requires reconciled definitions and does not convert the observed gap into operational or financial loss.";
  limitation =
      "A high-confidence gap does not mean platform and observed-order semantics are reconciled.";
}

abbrev acquisition_efficiency_investigation_review_frame : DecisionFrameSpec
acquisition_efficiency_investigation_review_frame = record {
  frame_order = 1;
  frame_id = "acquisition-efficiency-investigation-review";
  originating_opportunity_type = acquisition_efficiency_review;
  decision_type = acquisition_efficiency_investigation_review;
  decision_class = investigation_direction;
  decision_question =
      "Is current evidence sufficient to prioritize acquisition efficiency for deeper human review?";
  required_requirement_ids =
      "requirement:acquisition_cost_peer_evidence" ∷ "requirement:campaign_downstream_outcomes"
      ∷ [];
  relevant_task_keys = "validate-cost-gap" ∷ "compare-downstream-evidence" ∷ [];
  counter_evidence_behavior = allow_if_disclosed;
  blocker_behavior = allow_contextual;
  boundary_behavior = standard;
  require_ready_task = true;
  rationale_design =
      "Peer-adjusted cost and downstream context form the bounded investigation-review bar.";
  decision_boundary =
      "This review does not establish CAC, ROAS, profit, budget impact, or authorize a campaign action.";
  limitation =
      "The available aggregate evidence cannot establish causal or trusted cross-currency economics.";
}

abbrev acquisition_efficiency_campaign_change_consideration_frame : DecisionFrameSpec
acquisition_efficiency_campaign_change_consideration_frame = record {
  frame_order = 2;
  frame_id = "acquisition-efficiency-campaign-change-consideration";
  originating_opportunity_type = acquisition_efficiency_review;
  decision_type = acquisition_efficiency_campaign_change_consideration;
  decision_class = business_change_consideration;
  decision_question =
      "Is current evidence sufficient to consider a campaign change based on acquisition efficiency?";
  required_requirement_ids =
      "requirement:acquisition_cost_peer_evidence" ∷ "requirement:campaign_downstream_outcomes"
      ∷ "requirement:below_campaign_acquisition_cohorts" ∷ [];
  relevant_task_keys =
      "validate-cost-gap" ∷ "compare-downstream-evidence" ∷ "collect-below-campaign-cohorts" ∷ [];
  counter_evidence_behavior = prevent_readiness;
  blocker_behavior = blockers_prevent_readiness;
  boundary_behavior = standard;
  require_ready_task = true;
  rationale_design =
      "Campaign-change review requires below-campaign cohorts and downstream context in addition to a cost gap.";
  decision_boundary =
      "Human review does not authorize, select, or execute a campaign or budget change and does not assert trusted cross-currency returns.";
  limitation = "Cost differences alone cannot establish cause, ROI, or expected business outcome.";
}

abbrev pub financial_boundary_frame : DecisionFrameSpec
financial_boundary_frame = record {
  frame_order = 1;
  frame_id = "trusted-economics-review";
  originating_opportunity_type = acquisition_efficiency_review;
  decision_type = trusted_economics_review;
  decision_class = financial_decision;
  decision_question =
      "Is trusted cross-currency evidence sufficient for human review of acquisition economics?";
  required_requirement_ids = "requirement:trusted_cross_currency_economics" ∷ [];
  relevant_task_keys = "validate-trusted-economics" ∷ [];
  counter_evidence_behavior = prevent_readiness;
  blocker_behavior = blockers_prevent_readiness;
  boundary_behavior = require_trusted_economics;
  require_ready_task = true;
  rationale_design = "A financial decision frame requires trusted cross-currency economics.";
  decision_boundary = "Trusted cross-currency economics are unavailable while FX_REQUIRED applies.";
  limitation =
      "No trusted profit, contribution, margin, MER, ROAS, ROI, or dollar-upside claim is available.";
}

-- A dictionary whose keys are all the types.
unfoldable pub decision_frame_registry : OpportunityType → List DecisionFrameSpec
decision_frame_registry confirmation_leakage =
    confirmation_investigation_review_frame ∷ confirmation_operational_change_consideration_frame
    ∷ []
decision_frame_registry acquisition_fulfillment_misalignment =
    acquisition_fulfillment_investigation_direction_frame ∷ campaign_change_consideration_frame ∷ []
decision_frame_registry measurement_reconciliation =
    measurement_reconciliation_review_frame ∷ measurement_use_readiness_frame ∷ []
decision_frame_registry acquisition_efficiency_review =
    acquisition_efficiency_investigation_review_frame
    ∷ acquisition_efficiency_campaign_change_consideration_frame ∷ []
