-- ===== src/Sequencing/Sources.antt =====
-- The arguments of src/intelligence/sequencing.py.
use pulse_data_platform.Intelligence.{
  IntelligenceContext, OpportunityEvaluation, InvestigationPortfolio, DecisionReadinessPortfolio,
}

-- The four arguments of `build_investigation_sequencing_portfolio`.
pub record Sources : Type 0 where
  pub context : IntelligenceContext
  pub evaluation : OpportunityEvaluation
  pub investigation : InvestigationPortfolio
  pub decision : DecisionReadinessPortfolio
