-- ===== src/Sequencing/Ordered.antt =====
-- The order of what `_derive_portfolio` of src/intelligence/sequencing.py returns.
use pulse_data_platform.Base.{
  ℕ, ◌≡◌, Bool, true, List, [], ◌∷◌, map, All, ok, >>=-elim_ok, arith, ltb,
}
use pulse_data_platform.Base.Sorting.{sort_by, IsSorted, sort_by-IsSorted}
use pulse_data_platform.Base.Strict.{
  text_less, IsStrict, not_after, lex, by, ltb-IsStrict, text_less-IsStrict, by-IsStrict,
  lex-IsStrict, not_after-IsOrder,
}
use pulse_data_platform.Intelligence.{priority_order, DecisionReadinessAssessment}
use pulse_data_platform.Sequencing.Sources.{Sources}
use pulse_data_platform.Sequencing.Graph.{counts_up, SourceIndexes}
use pulse_data_platform.Sequencing.Validation.{validate_source_graph}
use pulse_data_platform.Sequencing.Items.{
  EvidenceLeverageItem, InvestigationSequenceItem, InvestigationSequencingPortfolio,
}
use pulse_data_platform.Sequencing.Contracts.{sequencing_portfolio}
use pulse_data_platform.Sequencing.Leverage.{
  more, less_priority, leverage_less, add_assessments, leverage_items, ordered_leverage,
}
use pulse_data_platform.Sequencing.Sequence.{
  sequence_less, link_assessments, sequence_entries, ordered_sequence,
}
use pulse_data_platform.Sequencing.Portfolio.{targeted_of, portfolio_draft, derive_portfolio}
use pulse_data_platform.Sequencing.Ranking.{
  more-IsStrict, sequence_less-IsStrict, ranks_before, orders, sequence_items-IsSorted,
}

leverage_less-IsStrict : IsStrict leverage_less
unfolding leverage_less
leverage_less-IsStrict =
    lex-IsStrict _ _
      (by-IsStrict (λ (e : ℕ × EvidenceLeverageItem). e.1.affected_decision_count) more
        more-IsStrict)
      (lex-IsStrict _ _
        (by-IsStrict
          (λ (e : ℕ × EvidenceLeverageItem). priority_order e.1.highest_opportunity_priority) ltb
          ltb-IsStrict)
        (lex-IsStrict _ _
          (by-IsStrict (λ (e : ℕ × EvidenceLeverageItem). e.1.affected_opportunity_count) more
            more-IsStrict)
          (lex-IsStrict _ _ (by-IsStrict (λ (e : ℕ × EvidenceLeverageItem). e.0) ltb ltb-IsStrict) (
            by-IsStrict (λ (e : ℕ × EvidenceLeverageItem). e.1.requirement_id) text_less
              text_less-IsStrict))))

-- The item with more open decisions first, then by the highest priority, then the one with more
-- opportunities.
abbrev pub weighs_more : EvidenceLeverageItem → EvidenceLeverageItem → Bool
weighs_more = lex (by (λ (i : EvidenceLeverageItem). i.affected_decision_count) more) (
    lex (by (λ (i : EvidenceLeverageItem). i.highest_opportunity_priority) less_priority)
      (by (λ (i : EvidenceLeverageItem). i.affected_opportunity_count) more))

weighs_less :
    (a b : ℕ × EvidenceLeverageItem)
    → not_after leverage_less a b ≡ true
    → not_after weighs_more a.1 b.1 ≡ true
unfolding leverage_less
weighs_less a b h = ground arith

All-map_to {ℓ κ} :
    {A : Type ℓ} {B : Type κ} (p : A → Bool) (q : B → Bool) (f : A → B)
    → ((x : A) → p x ≡ true → q (f x) ≡ true)
    → (xs : List A) → All (λ x. p x ≡ true) xs
    → All (λ y. q y ≡ true) (map f xs)
All-map_to p q f keep [] h = tt
All-map_to p q f keep (x ∷ xs) h = (keep x h.0, All-map_to p q f keep xs h.1)

IsSorted-map {ℓ κ} :
    {A : Type ℓ} {B : Type κ} (le : A → A → Bool) (le' : B → B → Bool) (f : A → B)
    → ((a b : A) → le a b ≡ true → le' (f a) (f b) ≡ true)
    → (xs : List A) → IsSorted le xs
    → IsSorted le' (map f xs)
IsSorted-map le le' f keep [] h = tt
IsSorted-map le le' f keep (x ∷ xs) h =
    (All-map_to (le x) (le' (f x)) f (keep x) xs h.0, IsSorted-map le le' f keep xs h.1)

pub ordered_leverage-IsSorted :
    (indexes : SourceIndexes) (targeted : List DecisionReadinessAssessment)
    (items : List EvidenceLeverageItem)
    → ordered_leverage indexes targeted ≡ ok items
    → IsSorted (not_after weighs_more) items
unfolding ordered_leverage
ordered_leverage-IsSorted indexes targeted items h =
    >>=-elim_ok (add_assessments indexes targeted ([], 0)) _ h λ state e1 h1.
      >>=-elim_ok (leverage_items indexes state.0) _ h1 λ rows e2 h2.
        let order = not_after leverage_less in
        let same : map (λ (e : ℕ × EvidenceLeverageItem). e.1) (sort_by order rows) ≡ items = cc in
        rw⁻¹ same (
          IsSorted-map order (not_after weighs_more) (λ (e : ℕ × EvidenceLeverageItem). e.1)
            weighs_less (sort_by order rows)
            (sort_by-IsSorted order (not_after-IsOrder leverage_less leverage_less-IsStrict) rows))

pub ordered_sequence-IsSorted :
    (indexes : SourceIndexes) (targeted : List DecisionReadinessAssessment)
    (items : List InvestigationSequenceItem)
    → ordered_sequence indexes targeted ≡ ok items
    → IsSorted (not_after ranks_before) items × (counts_up 1 (orders items) ≡ true)
unfolding ordered_sequence
ordered_sequence-IsSorted indexes targeted items h =
    >>=-elim_ok (link_assessments indexes targeted []) _ h λ links e1 h1.
      >>=-elim_ok (sequence_entries indexes links) _ h1 λ rows e2 h2.
        sequence_items-IsSorted 1 (sort_by (not_after sequence_less) rows) items h2 (
          sort_by-IsSorted (not_after sequence_less)
            (not_after-IsOrder sequence_less sequence_less-IsStrict) rows)

pub derive_portfolio_parts :
    (s : Sources) (p : InvestigationSequencingPortfolio) {P : Type 0}
    → derive_portfolio s ≡ ok p
    → ((indexes : SourceIndexes) (leverage : List EvidenceLeverageItem)
          (sequence : List InvestigationSequenceItem)
        → ordered_leverage indexes (targeted_of s) ≡ ok leverage
        → ordered_sequence indexes (targeted_of s) ≡ ok sequence
        → sequencing_portfolio (portfolio_draft s leverage sequence) ≡ ok p
        → P)
    → P
unfolding derive_portfolio
derive_portfolio_parts s p h goal = >>=-elim_ok (validate_source_graph s) _ h λ indexes e1 h1.
    >>=-elim_ok (ordered_leverage indexes (targeted_of s)) _ h1 λ leverage e2 h2.
      >>=-elim_ok (ordered_sequence indexes (targeted_of s)) _ h2
        λ sequence e3 h3. goal indexes leverage sequence e2 e3 h3
