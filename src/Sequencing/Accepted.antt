-- ===== src/Sequencing/Accepted.antt =====
-- `build_investigation_sequencing_portfolio` of src/intelligence/sequencing.py accepts what it derives.
use pulse_data_platform.Base.{
  ℕ, ◌≡◌, refl, Bool, true, some, List, [], ◌∷◌, map, All, All-map, All-zip, All-select_with,
  str_eq, eq_iff, eq_refl, Outcome, ok, err, ◌>>=◌, ◌>>◌, >>=-elim_ok, checked, strip, ◌==◌, arith,
}
use pulse_data_platform.Base.Dicts.{get}
use pulse_data_platform.Base.Sorting.{sort_by, All-sort_by}
use pulse_data_platform.Base.Strict.{not_after}
use pulse_data_platform.Intelligence.{needs_evidence, is_at_boundary, DecisionReadinessAssessment}
use pulse_data_platform.Sequencing.Sources.{Sources}
use pulse_data_platform.Sequencing.Graph.{SequencingError, member, SourceIndexes}
use pulse_data_platform.Sequencing.Validation.{validate_source_graph}
use pulse_data_platform.Sequencing.Indexed.{IsClean, IsGraph, validate_source_graph-IsGraph}
use pulse_data_platform.Sequencing.Items.{
  EvidenceLeverageItem, InvestigationSequenceItem, InvestigationSequencingPortfolio,
}
use pulse_data_platform.Sequencing.Contracts.{sequencing_portfolio}
use pulse_data_platform.Sequencing.Cleaned.{map-strip, sequencing_portfolio_lem}
use pulse_data_platform.Sequencing.Built.{All-map_by}
use pulse_data_platform.Sequencing.Leverage.{
  LeverageState, leverage_less, add_assessments, leverage_items, ordered_leverage,
}
use pulse_data_platform.Sequencing.Sequence.{
  sequence_less, link_assessments, sequence_entries, ordered_sequence,
}
use pulse_data_platform.Sequencing.Portfolio.{
  targeted_of, boundary_of, decision_ids, portfolio_draft, derive_portfolio,
}
use pulse_data_platform.Sequencing.Affected.{IsTarget, AreSound, add_assessments-AreSound}
use pulse_data_platform.Sequencing.Linked.{IsLinked, leverage_items-IsLinked, check_leverage_pass}
use pulse_data_platform.Sequencing.Followed.{
  IsWaiting, IsFollowed, IsEntry, link_assessments-AreLinks, sequence_entries-IsEntry,
  sequence_items-IsFollowed, check_sequence_pass,
}
use pulse_data_platform.Sequencing.Safety.{text_checks, output_text}
use pulse_data_platform.Sequencing.Building.{
  InvestigationSequencingPortfolio-discrete, accept_same, compare_portfolio, check_leverage,
  check_sequence, validate_portfolio, build_portfolio,
}

compare_portfolio_self : (p : InvestigationSequencingPortfolio) → compare_portfolio p p ≡ ok p
compare_portfolio_self p = by_decision (InvestigationSequencingPortfolio-discrete p p)
  where
    by_decision : (d : Dec (p ≡ p)) → accept_same p p d ≡ ok p
    by_decision (yes same) = refl
    by_decision (no differ) = absurd (differ refl)

All-decision_ids :
    (rows : List DecisionReadinessAssessment)
    → All
        (λ (a : DecisionReadinessAssessment). member a.decision_id (decision_ids rows) ≡ true)
        rows
All-decision_ids [] = tt
All-decision_ids (a ∷ rows) = (
  rw (eq_refl a.decision_id) refl,
  All-map (λ (b : DecisionReadinessAssessment). member b.decision_id (decision_ids rows) ≡ true)
      (λ (b : DecisionReadinessAssessment). member b.decision_id (decision_ids (a ∷ rows)) ≡ true)
      (λ b h. ground arith) rows (All-decision_ids rows),
)

module _ (s : Sources) (indexes : SourceIndexes) (clean : IsClean s)
    (graph : IsGraph s indexes) where
  -- What is known of each assessment.
  abbrev IsKnown : DecisionReadinessAssessment → Type 0
  IsKnown a =
      (get str_eq a.decision_id indexes.decisions ≡ some a)
      × (strip a.decision_id ≡ a.decision_id)
      × All (λ r. strip r ≡ r) a.unresolved_requirement_ids
      × All (λ t. strip t ≡ t) a.next_evidence_task_ids

  known : All IsKnown s.decision.assessments
  known =
      All-zip (λ a. get str_eq a.decision_id indexes.decisions ≡ some a) _ IsKnown
        (λ a found texts. (found, texts.0, texts.1, texts.2)) s.decision.assessments graph.decisions
        clean.decisions

  targets : All (λ a. IsKnown a × (needs_evidence a.readiness ≡ true)) (targeted_of s)
  targets =
      All-select_with IsKnown (λ a. IsKnown a × (needs_evidence a.readiness ≡ true))
        (λ a. needs_evidence a.readiness) (λ a h open_one. (h, open_one)) s.decision.assessments
        known

  boundaries :
      All
        (λ (b : DecisionReadinessAssessment).
          (get str_eq b.decision_id indexes.decisions ≡ some b)
          × (is_at_boundary b.readiness ≡ true))
        (boundary_of s)
  boundaries =
      All-select_with IsKnown _ (λ a. is_at_boundary a.readiness) (λ a h closed. (h.0, closed))
        s.decision.assessments known

  pub targeted-AreSound :
      (state : LeverageState)
      → add_assessments indexes (targeted_of s) ([], 0) ≡ ok state
      → AreSound indexes (decision_ids (targeted_of s)) state.0
  targeted-AreSound state h =
      add_assessments-AreSound indexes (decision_ids (targeted_of s)) graph.requirements
        (targeted_of s) ([], 0) state h
        (All-zip _ _ (IsTarget indexes (decision_ids (targeted_of s)))
          (λ a h inside. (h.0.0, h.1, inside, h.0.1, h.0.2)) (targeted_of s) targets
          (All-decision_ids (targeted_of s)))
        tt

  ordered_leverage-IsLinked :
      (items : List EvidenceLeverageItem)
      → ordered_leverage indexes (targeted_of s) ≡ ok items
      → All (IsLinked indexes (decision_ids (targeted_of s))) items
  unfolding ordered_leverage
  ordered_leverage-IsLinked items h =
      >>=-elim_ok (add_assessments indexes (targeted_of s) ([], 0)) _ h λ state e1 h1.
        >>=-elim_ok (leverage_items indexes state.0) _ h1 λ rows e2 h2.
          let sound = targeted-AreSound state e1 in
          let made =
            leverage_items-IsLinked indexes (decision_ids (targeted_of s)) state.0 rows e2 sound in
          let same : map (λ (e : ℕ × EvidenceLeverageItem). e.1)
                (sort_by (not_after leverage_less) rows)
              ≡ items =
            cc in
          rw⁻¹ same (
            All-map_by (IsLinked indexes (decision_ids (targeted_of s)))
              (λ (e : ℕ × EvidenceLeverageItem). e.1) (sort_by (not_after leverage_less) rows)
              (All-sort_by (not_after leverage_less)
                (λ (e : ℕ × EvidenceLeverageItem).
                  IsLinked indexes (decision_ids (targeted_of s)) e.1)
                rows made))

  ordered_sequence-IsFollowed :
      (items : List InvestigationSequenceItem)
      → ordered_sequence indexes (targeted_of s) ≡ ok items
      → All (IsFollowed indexes) items
  unfolding ordered_sequence
  ordered_sequence-IsFollowed items h =
      >>=-elim_ok (link_assessments indexes (targeted_of s) []) _ h λ links e1 h1.
        >>=-elim_ok (sequence_entries indexes links) _ h1 λ rows e2 h2.
          let linked =
            link_assessments-AreLinks indexes (targeted_of s) [] links e1
              (All-map (λ a. IsKnown a × (needs_evidence a.readiness ≡ true)) (IsWaiting indexes)
                (λ a h. (h.0.0, h.0.1, h.0.3)) (targeted_of s) targets)
              tt in
          let entries = sequence_entries-IsEntry indexes graph.tasks links rows e2 linked in
          sequence_items-IsFollowed indexes 1 (sort_by (not_after sequence_less) rows) items h2
            (All-sort_by (not_after sequence_less) (IsEntry indexes) rows entries)

  targeted_clean : map strip (decision_ids (targeted_of s)) ≡ decision_ids (targeted_of s)
  targeted_clean = map-strip (decision_ids (targeted_of s)) (
      All-map_by (λ x. strip x ≡ x) _ (targeted_of s)
        (All-map _ _ (λ a h. h.0.1) (targeted_of s) targets))

  boundary_clean : map strip (decision_ids (boundary_of s)) ≡ decision_ids (boundary_of s)
  boundary_clean = map-strip (decision_ids (boundary_of s)) (
      All-map_by (λ x. strip x ≡ x) _ (boundary_of s)
        (All-select_with IsKnown (λ a. strip a.decision_id ≡ a.decision_id)
          (λ a. is_at_boundary a.readiness) (λ a h _. h.1) s.decision.assessments known))

  -- The links of a derived portfolio pass.
  pub links_pass :
      (leverage : List EvidenceLeverageItem) (sequence : List InvestigationSequenceItem)
      (p : InvestigationSequencingPortfolio)
      → ordered_leverage indexes (targeted_of s) ≡ ok leverage
      → ordered_sequence indexes (targeted_of s) ≡ ok sequence
      → sequencing_portfolio (portfolio_draft s leverage sequence) ≡ ok p
      → (check_leverage indexes p.targeted_needs_more_evidence_decision_ids
            p.boundary_blocked_decision_ids p.evidence_leverage_items
          ≡ ok tt)
        × (check_sequence indexes p.sequence_items ≡ ok tt)
        × (p.business_id ≡ s.context.business_id)
        × (p.as_of_date ≡ s.context.as_of_date)
  links_pass leverage sequence p e1 e2 e3 =
      let made = sequencing_portfolio_lem (portfolio_draft s leverage sequence) p e3 in
      let linked = ordered_leverage-IsLinked leverage e1 in
      let followed = ordered_sequence-IsFollowed sequence e2 in
      let business : strip s.context.business_id ≡ s.context.business_id =
        rw⁻¹ graph.business clean.business in
      rw⁻¹ made (
        rw (targeted_clean, boundary_clean)
            (check_leverage_pass indexes (decision_ids (targeted_of s)) (boundary_of s) boundaries
              leverage linked),
        check_sequence_pass indexes sequence followed,
        business,
        refl,
      )

module _ (is_word is_digit : ℕ → Bool) where
  validate_portfolio-derived :
      (s : Sources) (p : InvestigationSequencingPortfolio)
      → IsClean s
      → derive_portfolio s ≡ ok p
      → validate_portfolio is_word is_digit p s
        ≡ (checked (text_checks is_word is_digit (output_text p)) >> ok p)
  unfolding validate_portfolio
  validate_portfolio-derived s p clean h =
      let chain : (validate_source_graph s >>= λ indexes.
      ordered_leverage indexes (targeted_of s) >>= λ leverage.
      ordered_sequence indexes (targeted_of s) >>= λ sequence.
      sequencing_portfolio (portfolio_draft s leverage sequence))
          ≡ ok p =
        unfold derive_portfolio in h in
      >>=-elim_ok (validate_source_graph s) _ chain λ indexes e1 h1.
        >>=-elim_ok (ordered_leverage indexes (targeted_of s)) _ h1 λ leverage e2 h2.
          >>=-elim_ok (ordered_sequence indexes (targeted_of s)) _ h2 λ sequence e3 h3.
            let graph = validate_source_graph-IsGraph s indexes clean e1 in
            let (links, follows, business, date) =
              links_pass s indexes clean graph leverage sequence p e2 e3 h3 in
            let same_business : str_eq p.business_id s.context.business_id ≡ true =
              (eq_iff p.business_id s.context.business_id).1 business in
            let same_date : (p.as_of_date == s.context.as_of_date) ≡ true = ground arith in
            rw (e1, same_business, same_date, links, follows, h, compare_portfolio_self p) refl

  -- Of sources whose identities their constructors left clean: `build` returns what is derived,
  -- unless its text is refused; no check of the source links, of the identity or of the exact
  -- derivation ever refuses it. Where nothing is derived, `build` raises the same error.
  pub build_portfolio_lem :
      (s : Sources)
      → IsClean s
      → build_portfolio is_word is_digit s ≡ (
          derive_portfolio s >>= λ p.
          (checked (text_checks is_word is_digit (output_text p)) >> ok p))
  unfolding build_portfolio
  build_portfolio_lem s clean = by_derived (derive_portfolio s) refl
    where
      by_derived :
          (o : Outcome SequencingError InvestigationSequencingPortfolio)
          → derive_portfolio s ≡ o
          → (o >>= λ p. validate_portfolio is_word is_digit p s)
            ≡ (o >>= λ p. (checked (text_checks is_word is_digit (output_text p)) >> ok p))
      by_derived (err reason) h = refl
      by_derived (ok p) h = validate_portfolio-derived s p clean h
