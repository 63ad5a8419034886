-- ===== src/Sequencing/Portfolio.antt =====
-- `_derive_portfolio` of src/intelligence/sequencing.py.
use pulse_data_platform.Base.{
  String, not, Option, none, some, List, [], ◌∷◌, map, find, count, select, Outcome, ◌>>=◌,
}
use pulse_data_platform.Intelligence.{DecisionReadinessAssessment, needs_evidence, is_at_boundary}
use pulse_data_platform.Sequencing.Sources.{Sources}
use pulse_data_platform.Sequencing.Graph.{SequencingError}
use pulse_data_platform.Sequencing.Validation.{validate_source_graph}
use pulse_data_platform.Sequencing.Items.{
  EvidenceLeverageItem, InvestigationSequenceItem, InvestigationSequencingPortfolio,
  SequencingPortfolioState, ready_task_available, evidence_gap_first, boundary_only,
  no_open_readiness_gaps,
}
use pulse_data_platform.Sequencing.Contracts.{sequencing_portfolio}
use pulse_data_platform.Sequencing.Leverage.{ordered_leverage}
use pulse_data_platform.Sequencing.Sequence.{ordered_sequence}

abbrev pub targeted_of : Sources → List DecisionReadinessAssessment
targeted_of s =
    select (λ (a : DecisionReadinessAssessment). needs_evidence a.readiness) s.decision.assessments

abbrev pub boundary_of : Sources → List DecisionReadinessAssessment
boundary_of s =
    select (λ (a : DecisionReadinessAssessment). is_at_boundary a.readiness) s.decision.assessments

abbrev pub decision_ids : List DecisionReadinessAssessment → List String
decision_ids rows = map (λ (a : DecisionReadinessAssessment). a.decision_id) rows

abbrev task_of : Option InvestigationSequenceItem → Option String
task_of none = none
task_of (some i) = some i.task_id

-- `recommended`
abbrev pub recommended_of : List InvestigationSequenceItem → Option String
recommended_of items = task_of (find (λ (i : InvestigationSequenceItem). i.can_begin_now) items)

unfoldable pub state_of :
    Option String
    → List DecisionReadinessAssessment
    → List DecisionReadinessAssessment
    → SequencingPortfolioState
state_of (some t) targeted boundary = ready_task_available
state_of none (a ∷ rest) boundary = evidence_gap_first
state_of none [] (b ∷ rest) = boundary_only
state_of none [] [] = no_open_readiness_gaps

abbrev pub focus_of : List EvidenceLeverageItem → Option String
focus_of [] = none
focus_of (i ∷ items) = some i.requirement_id

abbrev pub portfolio_limitation : String
portfolio_limitation =
    "This portfolio sequences bounded analytical learning only. It does not execute tasks, acquire evidence automatically, select a business action, or guarantee that decision readiness will change."

abbrev pub portfolio_draft :
    Sources
    → List EvidenceLeverageItem
    → List InvestigationSequenceItem
    → InvestigationSequencingPortfolio
portfolio_draft s leverage sequence = record {
  business_id = s.context.business_id;
  as_of_date = s.context.as_of_date;
  state = state_of (recommended_of sequence) (targeted_of s) (boundary_of s);
  evidence_leverage_items = leverage;
  sequence_items = sequence;
  top_evidence_focus_requirement_id = focus_of leverage;
  recommended_next_task_id = recommended_of sequence;
  startable_task_count = count (λ (i : InvestigationSequenceItem). i.can_begin_now) sequence;
  blocked_sequence_task_count =
      count (λ (i : InvestigationSequenceItem). not i.can_begin_now) sequence;
  targeted_needs_more_evidence_decision_ids = decision_ids (targeted_of s);
  boundary_blocked_decision_ids = decision_ids (boundary_of s);
  limitation = portfolio_limitation;
}

unfoldable pub derive_portfolio : Sources → Outcome SequencingError InvestigationSequencingPortfolio
derive_portfolio s = validate_source_graph s >>= λ indexes.
    ordered_leverage indexes (targeted_of s) >>= λ leverage.
    ordered_sequence indexes (targeted_of s) >>= λ sequence.
    sequencing_portfolio (portfolio_draft s leverage sequence)
