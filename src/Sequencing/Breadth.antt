-- ===== src/Sequencing/Breadth.antt =====
-- The breadth of evidence that a portfolio of src/intelligence/sequencing.py reports.
use pulse_data_platform.Base.{
  ℕ, ◌≡◌, ◌∙◌, String, ◌&&◌, List, [], map, All, any, str_eq, ok, >>=-elim_ok, any-select,
}
use pulse_data_platform.Base.Sorting.{sort_by, any-sort_by}
use pulse_data_platform.Base.Strict.{not_after}
use pulse_data_platform.Intelligence.{needs_evidence, DecisionReadinessAssessment}
use pulse_data_platform.Sequencing.Sources.{Sources}
use pulse_data_platform.Sequencing.Graph.{member, SourceIndexes}
use pulse_data_platform.Sequencing.Indexed.{IsClean, IsGraph, validate_source_graph-IsGraph}
use pulse_data_platform.Sequencing.Validation.{validate_source_graph}
use pulse_data_platform.Sequencing.Items.{EvidenceLeverageItem, InvestigationSequencingPortfolio}
use pulse_data_platform.Sequencing.Cleaned.{sequencing_portfolio_lem}
use pulse_data_platform.Sequencing.Built.{ordered_leverage-All}
use pulse_data_platform.Sequencing.Leverage.{
  leverage_less, add_assessments, leverage_items, ordered_leverage,
}
use pulse_data_platform.Sequencing.Sequence.{ordered_sequence}
use pulse_data_platform.Sequencing.Portfolio.{
  targeted_of, decision_ids, portfolio_draft, derive_portfolio,
}
use pulse_data_platform.Sequencing.Accepted.{targeted-AreSound}
use pulse_data_platform.Sequencing.Reference.{
  names, names_entry, IsTally, leverage_item-IsTally, any-map, any-leverage_items,
  lists-add_assessments,
}

ordered_leverage-names :
    (s : Sources) (indexes : SourceIndexes) (leverage : List EvidenceLeverageItem)
    → IsClean s
    → IsGraph s indexes
    → ordered_leverage indexes (targeted_of s) ≡ ok leverage
    → (requirement id : String)
    → any (names requirement id) leverage
      ≡ any
          (λ (a : DecisionReadinessAssessment).
            (member requirement a.unresolved_requirement_ids && str_eq a.decision_id id)
            && needs_evidence a.readiness)
          s.decision.assessments
unfolding ordered_leverage
ordered_leverage-names s indexes leverage clean graph h requirement id =
    >>=-elim_ok (add_assessments indexes (targeted_of s) ([], 0)) _ h λ state e1 h1.
      >>=-elim_ok (leverage_items indexes state.0) _ h1 λ rows e2 h2.
        let sound = targeted-AreSound s indexes clean graph state e1 in
        let order = not_after leverage_less in
        let sorted : map (λ (e : ℕ × EvidenceLeverageItem). e.1) (sort_by order rows) ≡ leverage =
          cc in
        rw⁻¹ sorted (
          any-map (names requirement id) (λ (e : ℕ × EvidenceLeverageItem). e.1)
            (sort_by order rows)
          ∙ any-sort_by order (names_entry requirement id) rows
          ∙ any-leverage_items indexes (decision_ids (targeted_of s)) requirement id state.0 rows e2
              sound
          ∙ lists-add_assessments indexes requirement id (targeted_of s) ([], 0) state e1
          ∙ any-select
              (λ (a : DecisionReadinessAssessment).
                member requirement a.unresolved_requirement_ids && str_eq a.decision_id id)
              (λ (a : DecisionReadinessAssessment). needs_evidence a.readiness)
              s.decision.assessments)

-- Of a portfolio that is derived from sources with clean identities: there is an item that lists a
-- decision for a requirement exactly if that decision is assessed as in need of evidence and the
-- requirement is unresolved for it; each item counts the decisions that it lists, lists none
-- twice, and is marked as shared exactly if it counts more than one.
pub derive_portfolio-leverage :
    (s : Sources) (p : InvestigationSequencingPortfolio)
    → IsClean s
    → derive_portfolio s ≡ ok p
    → ((requirement id : String)
        → any (names requirement id) p.evidence_leverage_items
          ≡ any
              (λ (a : DecisionReadinessAssessment).
                (member requirement a.unresolved_requirement_ids && str_eq a.decision_id id)
                && needs_evidence a.readiness)
              s.decision.assessments)
      × All IsTally p.evidence_leverage_items
unfolding derive_portfolio
derive_portfolio-leverage s p clean h = >>=-elim_ok (validate_source_graph s) _ h λ indexes e1 h1.
    >>=-elim_ok (ordered_leverage indexes (targeted_of s)) _ h1 λ leverage e2 h2.
      >>=-elim_ok (ordered_sequence indexes (targeted_of s)) _ h2 λ sequence e3 h3.
        let graph = validate_source_graph-IsGraph s indexes clean e1 in
        rw⁻¹ (sequencing_portfolio_lem (portfolio_draft s leverage sequence) p h3) (
          ordered_leverage-names s indexes leverage clean graph e2,
          ordered_leverage-All indexes IsTally (leverage_item-IsTally indexes) (targeted_of s)
              leverage e2,
        )
