-- ===== src/Sequencing/Built.antt =====
-- What every item of a portfolio of src/intelligence/sequencing.py has from its constructor.
use pulse_data_platform.Base.{
  ℕ, suc, ◌≡◌, String, List, [], ◌∷◌, map, All, ok, >>=-elim_ok, strip, strip-strip,
}
use pulse_data_platform.Base.Sorting.{sort_by, All-sort_by}
use pulse_data_platform.Base.Strict.{not_after}
use pulse_data_platform.Intelligence.{OpportunityPriority, DecisionReadinessAssessment}
use pulse_data_platform.Sequencing.Graph.{SourceIndexes}
use pulse_data_platform.Sequencing.Items.{EvidenceLeverageItem, InvestigationSequenceItem}
use pulse_data_platform.Sequencing.Contracts.{leverage_item, sequence_item}
use pulse_data_platform.Sequencing.Cleaned.{leverage_item_lem, sequence_item_lem}
use pulse_data_platform.Sequencing.Leverage.{
  Aggregate, Aggregates, priorities_of, min_priority, leverage_draft, leverage_less,
  add_assessments, leverage_items, ordered_leverage,
}
use pulse_data_platform.Sequencing.Sequence.{
  SequenceEntry, sequence_draft, sequence_less, sequence_items, link_assessments, sequence_entries,
  ordered_sequence,
}

pub All-map_by {ℓ κ μ} :
    {A : Type ℓ} {B : Type κ} (P : B → Type μ) (f : A → B) (xs : List A)
    → All (λ x. P (f x)) xs
    → All P (map f xs)
All-map_by P f [] h = tt
All-map_by P f (x ∷ xs) h = (h.0, All-map_by P f xs h.1)

pub sequence_items-All {κ μ} :
    (P : SequenceEntry → Type κ) (Q : InvestigationSequenceItem → Type μ)
    → ((order : ℕ) (e : SequenceEntry) (i : InvestigationSequenceItem)
        → sequence_item (sequence_draft order e) ≡ ok i
        → P e
        → Q i)
    → (order : ℕ) (rows : List SequenceEntry) (items : List InvestigationSequenceItem)
    → sequence_items order rows ≡ ok items
    → All P rows
    → All Q items
unfolding sequence_items
sequence_items-All P Q f order [] items h all = let same : [] ≡ items = cc in rw⁻¹ same tt
sequence_items-All P Q f order (e ∷ rows) items h all =
    >>=-elim_ok (sequence_item (sequence_draft order e)) _ h λ item e1 h1.
      >>=-elim_ok (sequence_items (suc order) rows) _ h1 λ rest e2 h2.
        let same : item ∷ rest ≡ items = cc in
        rw⁻¹ same (f order e item e1 all.0, sequence_items-All P Q f (suc order) rows rest e2 all.1)

module _ {κ} (indexes : SourceIndexes) (Q : EvidenceLeverageItem → Type κ)
    (made : (id : String) (g : Aggregate) (p : OpportunityPriority) (i : EvidenceLeverageItem)
      → leverage_item (leverage_draft indexes id g p) ≡ ok i
      → Q i) where
  leverage_items-All :
      (d : Aggregates) (items : List (ℕ × EvidenceLeverageItem))
      → leverage_items indexes d ≡ ok items
      → All (λ (e : ℕ × EvidenceLeverageItem). Q e.1) items
  unfolding leverage_items
  leverage_items-All [] items h = let same : [] ≡ items = cc in rw⁻¹ same tt
  leverage_items-All ((id, g) ∷ d) items h =
      >>=-elim_ok (priorities_of indexes g.opportunities) _ h λ ps e1 h1.
        >>=-elim_ok (min_priority ps) _ h1 λ highest e2 h2.
          >>=-elim_ok (leverage_item (leverage_draft indexes id g highest)) _ h2 λ item e3 h3.
            >>=-elim_ok (leverage_items indexes d) _ h3 λ rest e4 h4.
              let same : (g.first_appearance, item) ∷ rest ≡ items = cc in
              rw⁻¹ same (made id g highest item e3, leverage_items-All d rest e4)

  pub ordered_leverage-All :
      (targeted : List DecisionReadinessAssessment) (items : List EvidenceLeverageItem)
      → ordered_leverage indexes targeted ≡ ok items
      → All Q items
  unfolding ordered_leverage
  ordered_leverage-All targeted items h =
      >>=-elim_ok (add_assessments indexes targeted ([], 0)) _ h λ state e1 h1.
        >>=-elim_ok (leverage_items indexes state.0) _ h1 λ rows e2 h2.
          let order = not_after leverage_less in
          let same : map (λ (e : ℕ × EvidenceLeverageItem). e.1) (sort_by order rows) ≡ items =
            cc in
          rw⁻¹ same (
            All-map_by Q (λ (e : ℕ × EvidenceLeverageItem). e.1) (sort_by order rows)
              (All-sort_by order (λ (e : ℕ × EvidenceLeverageItem). Q e.1) rows
                (leverage_items-All state.0 rows e2)))

pub ordered_leverage-strip :
    (indexes : SourceIndexes) (targeted : List DecisionReadinessAssessment)
    (items : List EvidenceLeverageItem)
    → ordered_leverage indexes targeted ≡ ok items
    → All (λ (i : EvidenceLeverageItem). strip i.requirement_id ≡ i.requirement_id) items
ordered_leverage-strip indexes =
    ordered_leverage-All indexes (λ i. strip i.requirement_id ≡ i.requirement_id)
      (λ id g p i h.
        rw⁻¹ (leverage_item_lem (leverage_draft indexes id g p) i h)
          (strip-strip g.requirement.requirement_id))

all_rows : (rows : List SequenceEntry) → All (λ e. Unit {0}) rows
all_rows [] = tt
all_rows (e ∷ rows) = (tt, all_rows rows)

pub ordered_sequence-strip :
    (indexes : SourceIndexes) (targeted : List DecisionReadinessAssessment)
    (items : List InvestigationSequenceItem)
    → ordered_sequence indexes targeted ≡ ok items
    → All (λ (i : InvestigationSequenceItem). strip i.task_id ≡ i.task_id) items
unfolding ordered_sequence
ordered_sequence-strip indexes targeted items h =
    >>=-elim_ok (link_assessments indexes targeted []) _ h λ links e1 h1.
      >>=-elim_ok (sequence_entries indexes links) _ h1 λ rows e2 h2.
        let sorted = sort_by (not_after sequence_less) rows in
        sequence_items-All (λ e. Unit {0}) (λ i. strip i.task_id ≡ i.task_id)
          (λ n e i made _.
            rw⁻¹ (sequence_item_lem (sequence_draft n e) i made) (strip-strip e.task_id))
          1 sorted items h2 (all_rows sorted)
