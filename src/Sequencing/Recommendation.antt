-- ===== src/Sequencing/Recommendation.antt =====
-- What a portfolio of src/intelligence/sequencing.py recommends, and the state that it reports.
use pulse_data_platform.Base.{
  Bool, ◌↔◌, ◌<◌, select, ℕ, ◌+◌, ◌≡◌, refl, String, true, not, Option, none, some, List, [], ◌∷◌,
  All, ok, arith, ltb, count, length, strip, Bool-cases, inl, inr, is_none,
}
use pulse_data_platform.Base.Sorting.{IsSorted}
use pulse_data_platform.Base.Strict.{not_after}
use pulse_data_platform.Intelligence.{DecisionReadinessAssessment, needs_evidence, is_at_boundary}
use pulse_data_platform.Sequencing.Sources.{Sources}
use pulse_data_platform.Sequencing.Graph.{counts_up}
use pulse_data_platform.Sequencing.Items.{
  EvidenceLeverageItem, InvestigationSequenceItem, InvestigationSequencingPortfolio,
  SequencingPortfolioState, ready_task_available, evidence_gap_first, boundary_only,
  no_open_readiness_gaps,
}
use pulse_data_platform.Sequencing.Items.{strip_optional}
use pulse_data_platform.Sequencing.Cleaned.{sequencing_portfolio_lem}
use pulse_data_platform.Sequencing.Built.{ordered_leverage-strip, ordered_sequence-strip}
use pulse_data_platform.Sequencing.Portfolio.{
  targeted_of, boundary_of, recommended_of, state_of, focus_of, portfolio_draft, derive_portfolio,
}
use pulse_data_platform.Sequencing.Ranking.{
  ranks_before, orders, first_startable, recommended_of_sorted,
}
use pulse_data_platform.Sequencing.Ordered.{
  weighs_more, ordered_leverage-IsSorted, ordered_sequence-IsSorted, derive_portfolio_parts,
}

strip-focus :
    (items : List EvidenceLeverageItem)
    → All (λ (i : EvidenceLeverageItem). strip i.requirement_id ≡ i.requirement_id) items
    → strip_optional (focus_of items) ≡ focus_of items
strip-focus [] h = refl
strip-focus (i ∷ items) h = rw h.0 refl

strip-first :
    (items : List InvestigationSequenceItem)
    → All (λ (i : InvestigationSequenceItem). strip i.task_id ≡ i.task_id) items
    → strip_optional (first_startable items) ≡ first_startable items
strip-first [] h = refl
strip-first (i ∷ items) h = elim (Bool-cases i.can_begin_now) [
  | inl e ↦ rw (e, h.0) refl
  | inr e ↦ rw e refl
]

-- Of a portfolio that is derived: the leverage items are sorted, by the number of open decisions,
-- the priority and the number of opportunities, and the focus is the first; the tasks are
-- numbered from 1 and sorted, those that can begin first, then by priority, by the number of
-- decisions that wait and by the order of the opportunity; the task recommended is the first
-- where that can begin, and none is where the first cannot.
pub derive_portfolio-IsSorted :
    (s : Sources) (p : InvestigationSequencingPortfolio)
    → derive_portfolio s ≡ ok p
    → IsSorted (not_after weighs_more) p.evidence_leverage_items
      × (p.top_evidence_focus_requirement_id ≡ focus_of p.evidence_leverage_items)
      × IsSorted (not_after ranks_before) p.sequence_items
      × (counts_up 1 (orders p.sequence_items) ≡ true)
      × (p.recommended_next_task_id ≡ first_startable p.sequence_items)
derive_portfolio-IsSorted s p h = derive_portfolio_parts s p h λ indexes leverage sequence e1 e2 e3.
    let made = sequencing_portfolio_lem (portfolio_draft s leverage sequence) p e3 in
    let (ranked, numbered) = ordered_sequence-IsSorted indexes (targeted_of s) sequence e2 in
    let recommended = recommended_of_sorted sequence ranked in
    rw⁻¹ made (
      ordered_leverage-IsSorted indexes (targeted_of s) leverage e1,
      strip-focus leverage (ordered_leverage-strip indexes (targeted_of s) leverage e1),
      ranked,
      numbered,
      rw recommended
          (strip-first sequence (ordered_sequence-strip indexes (targeted_of s) sequence e2)),
    )

count_both :
    (items : List InvestigationSequenceItem)
    → count (λ (i : InvestigationSequenceItem). i.can_begin_now) items
        + count (λ (i : InvestigationSequenceItem). not i.can_begin_now) items
      ≡ length items
count_both [] = refl
count_both (i ∷ items) = ground (arith, count_both items)

startable_of_recommended :
    (items : List InvestigationSequenceItem)
    → ltb 0 (count (λ (i : InvestigationSequenceItem). i.can_begin_now) items)
      ≡ not (is_none (recommended_of items))
startable_of_recommended [] = refl
startable_of_recommended (i ∷ items) = ground (arith, startable_of_recommended items)

length-select :
    (p : DecisionReadinessAssessment → Bool) (xs : List DecisionReadinessAssessment)
    → length (select p xs) ≡ count p xs
length-select p [] = refl
length-select p (x ∷ xs) = ground (arith, length-select p xs)

-- When a portfolio is in each state: by how many of its tasks can begin, how many decisions are
-- assessed as in need of evidence, and how many as blocked by a boundary.
pub record IsStateFor (state : SequencingPortfolioState) (startable lacking blocked : ℕ)
    : Type 0 where
  pub ready : (state ≡ ready_task_available) ↔ (0 < startable)
  pub gap : (state ≡ evidence_gap_first) ↔ ((startable ≡ 0) × (0 < lacking))
  pub boundary : (state ≡ boundary_only) ↔ ((startable ≡ 0) × (lacking ≡ 0) × (0 < blocked))
  pub closed : (state ≡ no_open_readiness_gaps) ↔ ((startable ≡ 0) × (lacking ≡ 0) × (blocked ≡ 0))

state_of-IsStateFor :
    (o : Option String) (n : ℕ) (targeted boundary : List DecisionReadinessAssessment)
    → ltb 0 n ≡ not (is_none o)
    → IsStateFor (state_of o targeted boundary) n (length targeted) (length boundary)
unfolding state_of
state_of-IsStateFor (some t) n targeted boundary h = record {
  ready = (λ _. ground arith, λ _. refl);
  gap = (λ e. absurd (cc), λ k. absurd (ground arith));
  boundary = (λ e. absurd (cc), λ k. absurd (ground arith));
  closed = (λ e. absurd (cc), λ k. absurd (ground arith));
}
state_of-IsStateFor none n (a ∷ targeted) boundary h = record {
  ready = (λ e. absurd (cc), λ k. absurd (ground arith));
  gap = (λ _. (ground arith, omega arith), λ _. refl);
  boundary = (λ e. absurd (cc), λ k. absurd (ground arith));
  closed = (λ e. absurd (cc), λ k. absurd (ground arith));
}
state_of-IsStateFor none n [] (b ∷ boundary) h = record {
  ready = (λ e. absurd (cc), λ k. absurd (ground arith));
  gap = (λ e. absurd (cc), λ k. absurd (ground arith));
  boundary = (λ _. (ground arith, refl, omega arith), λ _. refl);
  closed = (λ e. absurd (cc), λ k. absurd (ground arith));
}
state_of-IsStateFor none n [] [] h = record {
  ready = (λ e. absurd (cc), λ k. absurd (ground arith));
  gap = (λ e. absurd (cc), λ k. absurd (ground arith));
  boundary = (λ e. absurd (cc), λ k. absurd (ground arith));
  closed = (λ _. (ground arith, refl, refl), λ _. refl);
}

-- Of a portfolio that is derived: its tasks are counted as startable or as blocked; and its state
-- is READY_TASK_AVAILABLE exactly if a task can begin, otherwise EVIDENCE_GAP_FIRST exactly if the
-- sources assess a decision as in need of evidence, otherwise BOUNDARY_ONLY exactly if they assess
-- one as blocked by a boundary, otherwise NO_OPEN_READINESS_GAPS.
pub derive_portfolio-state :
    (s : Sources) (p : InvestigationSequencingPortfolio)
    → derive_portfolio s ≡ ok p
    → (p.startable_task_count
        ≡ count (λ (i : InvestigationSequenceItem). i.can_begin_now) p.sequence_items)
      × (p.startable_task_count + p.blocked_sequence_task_count ≡ length p.sequence_items)
      × IsStateFor p.state p.startable_task_count
          (count
            (λ (a : DecisionReadinessAssessment). needs_evidence a.readiness)
            s.decision.assessments)
          (count
            (λ (a : DecisionReadinessAssessment). is_at_boundary a.readiness)
            s.decision.assessments)
derive_portfolio-state s p h = derive_portfolio_parts s p h λ indexes leverage sequence e1 e2 e3.
    let made = sequencing_portfolio_lem (portfolio_draft s leverage sequence) p e3 in
    let open_count =
      length-select (λ (a : DecisionReadinessAssessment). needs_evidence a.readiness)
        s.decision.assessments in
    let blocked_count =
      length-select (λ (a : DecisionReadinessAssessment). is_at_boundary a.readiness)
        s.decision.assessments in
    rw⁻¹ (made, open_count, blocked_count)
      (
        refl,
        count_both sequence,
        state_of-IsStateFor (recommended_of sequence)
            (count (λ (i : InvestigationSequenceItem). i.can_begin_now) sequence) (targeted_of s)
            (boundary_of s) (startable_of_recommended sequence),
      )
