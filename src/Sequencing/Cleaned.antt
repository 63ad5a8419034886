-- ===== src/Sequencing/Cleaned.antt =====
-- The constructors of src/intelligence/sequencing_models.py leave identities that carry no white
-- space around as they are.
use pulse_data_platform.Base.{
  ◌≡◌, refl, String, List, [], ◌∷◌, map, All, strip, ok, run_checks-eq-ok,
}
use pulse_data_platform.Sequencing.Items.{
  EvidenceLeverageItem, InvestigationSequenceItem, InvestigationSequencingPortfolio,
}
use pulse_data_platform.Sequencing.Contracts.{
  leverage_item, leverage_item_checks, clean_leverage_item, sequence_item, sequence_item_checks,
  clean_sequence_item, sequencing_portfolio, portfolio_checks, clean_portfolio,
}

pub map-strip : (ids : List String) → All (λ x. strip x ≡ x) ids → map strip ids ≡ ids
map-strip [] h = refl
map-strip (x ∷ xs) h = rw (h.0, map-strip xs h.1) refl

pub leverage_item_lem :
    (d i : EvidenceLeverageItem) → leverage_item d ≡ ok i → clean_leverage_item d ≡ i
unfolding leverage_item
leverage_item_lem d i h = (run_checks-eq-ok (leverage_item_checks d) (clean_leverage_item d) i h).0

pub sequence_item_lem :
    (d i : InvestigationSequenceItem) → sequence_item d ≡ ok i → clean_sequence_item d ≡ i
unfolding sequence_item
sequence_item_lem d i h = (run_checks-eq-ok (sequence_item_checks d) (clean_sequence_item d) i h).0

pub sequencing_portfolio_lem :
    (d p : InvestigationSequencingPortfolio) → sequencing_portfolio d ≡ ok p → clean_portfolio d ≡ p
unfolding sequencing_portfolio
sequencing_portfolio_lem d p h = (run_checks-eq-ok (portfolio_checks d) (clean_portfolio d) p h).0
