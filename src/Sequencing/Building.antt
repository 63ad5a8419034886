-- ===== src/Sequencing/Building.antt =====
-- `validate_investigation_sequencing_portfolio` and `build_investigation_sequencing_portfolio` of
-- src/intelligence/sequencing.py.
use native.Mathlib.Decide.{ℕ_discrete}
use pulse_data_platform.Base.{
  ◌≡◌, ℕ, String, Bool, true, false, not, ◌||◌, Option, none, some, List, [], ◌∷◌, any, str_eq,
  eq_iff, ◌==◌, Outcome, ok, err, ◌>>=◌, ◌>>◌, checked, Bool-cases, inl, inr, is_none,
}
use pulse_data_platform.Base.Dicts.{get}
use pulse_data_platform.Intelligence.{DecisionReadinessAssessment, needs_evidence}
use pulse_data_platform.Sequencing.Sources.{Sources}
use pulse_data_platform.Sequencing.Graph.{SequencingError, invalid, member, SourceIndexes, PlanTask}
use pulse_data_platform.Sequencing.Validation.{validate_source_graph}
use pulse_data_platform.Sequencing.Items.{
  EvidenceLeverageItem, InvestigationSequenceItem, InvestigationSequencingPortfolio,
}
use pulse_data_platform.Sequencing.Portfolio.{derive_portfolio}
use pulse_data_platform.Sequencing.Safety.{output_text, text_checks}

String-discrete : Discrete String
String-discrete s t = elim (Bool-cases (str_eq s t)) [
  | inl e ↦ yes ((eq_iff s t).0 e)
  | inr e ↦ no (λ same. cc ((eq_iff s t).1 same))
]

-- `portfolio == expected`
pub InvestigationSequencingPortfolio-discrete : Discrete InvestigationSequencingPortfolio
InvestigationSequencingPortfolio-discrete = hlevel (String-discrete, ℕ_discrete)

-- The identities of the portfolio's decisions, as the checks of the links use them.
module _ (indexes : SourceIndexes) (targeted boundary : List String) where
  abbrev found_decision : String → Option DecisionReadinessAssessment
  found_decision id = get str_eq id indexes.decisions

  abbrev is_not_open : List String → String → Option DecisionReadinessAssessment → Bool
  is_not_open targeted id none = false
  is_not_open targeted id (some a) = not (member id targeted) || not (needs_evidence a.readiness)

  abbrev is_resolved_for : String → Option DecisionReadinessAssessment → Bool
  is_resolved_for requirement none = false
  is_resolved_for requirement (some a) = not (member requirement a.unresolved_requirement_ids)

  -- One round of the loop over `item.affected_decision_ids` of a leverage item.
  abbrev pub leverage_link_checks : String → String → List (Bool × SequencingError)
  leverage_link_checks requirement id =
      let a = found_decision id in
      (is_none a, invalid "Evidence leverage references unknown decision ID")
      ∷ (
        is_not_open targeted id a,
        invalid "Evidence leverage can include only NEEDS_MORE_EVIDENCE decisions",
      )
      ∷ (
        is_resolved_for requirement a,
        invalid "Evidence leverage references a requirement not unresolved for its decision",
      )
      ∷ []

  unfoldable pub check_leverage_links : String → List String → Outcome SequencingError (Unit {0})
  check_leverage_links requirement [] = ok tt
  check_leverage_links requirement (id ∷ ids) =
      checked (leverage_link_checks requirement id) >> check_leverage_links requirement ids

  -- The loop over `portfolio.evidence_leverage_items`.
  unfoldable pub check_leverage : List EvidenceLeverageItem → Outcome SequencingError (Unit {0})
  check_leverage [] = ok tt
  check_leverage (i ∷ items) =
      check_leverage_links i.requirement_id i.affected_decision_ids
      >> (checked (
            (
              any (λ id. member id boundary) i.affected_decision_ids,
              invalid "Boundary-blocked decisions cannot inflate evidence leverage",
            )
            ∷ [])
          >> check_leverage items)

module _ (indexes : SourceIndexes) where
  abbrev is_unlinked : String → Option DecisionReadinessAssessment → Bool
  is_unlinked task none = true
  is_unlinked task (some a) = not (member task a.next_evidence_task_ids)

  -- The loop over `item.affected_decision_ids` of a sequence item.
  unfoldable pub check_sequence_links : String → List String → Outcome SequencingError (Unit {0})
  check_sequence_links task [] = ok tt
  check_sequence_links task (id ∷ ids) =
      checked (
        (
          is_unlinked task (get str_eq id indexes.decisions),
          invalid "Sequence task is not present in assessment.next_evidence_task_ids",
        )
        ∷ [])
      >> check_sequence_links task ids

  abbrev is_other_plan : String → Option PlanTask → Bool
  is_other_plan plan none = false
  is_other_plan plan (some source) = not (str_eq source.0.plan_id plan)

  -- The loop over `portfolio.sequence_items`.
  unfoldable pub check_sequence :
      List InvestigationSequenceItem → Outcome SequencingError (Unit {0})
  check_sequence [] = ok tt
  check_sequence (i ∷ items) =
      let source = get str_eq i.task_id indexes.tasks in
      checked (
        (is_none source, invalid "Sequence references unknown task ID")
        ∷ (
          is_other_plan i.investigation_plan_id source,
          invalid "Sequence task belongs to an unrelated plan",
        )
        ∷ [])
      >> (check_sequence_links i.task_id i.affected_decision_ids >> check_sequence items)

-- `if portfolio != expected: raise …`
abbrev pub accept_same :
    (p expected : InvestigationSequencingPortfolio)
    → Dec (p ≡ expected)
    → Outcome SequencingError InvestigationSequencingPortfolio
accept_same p expected (yes same) = ok p
accept_same p expected (no differ) =
    err (invalid "Sequencing portfolio does not match deterministic upstream derivation")

abbrev pub compare_portfolio :
    InvestigationSequencingPortfolio
    → InvestigationSequencingPortfolio
    → Outcome SequencingError InvestigationSequencingPortfolio
compare_portfolio p expected =
    accept_same p expected (InvestigationSequencingPortfolio-discrete p expected)

module _ (is_word is_digit : ℕ → Bool) where
  unfoldable pub validate_portfolio :
      InvestigationSequencingPortfolio
      → Sources
      → Outcome SequencingError InvestigationSequencingPortfolio
  validate_portfolio p s = do
    indexes ← validate_source_graph s
    checked (
        (
          not (str_eq p.business_id s.context.business_id)
              || not (p.as_of_date == s.context.as_of_date),
          invalid "Sequencing portfolio crosses context identity",
        )
        ∷ [])
    check_leverage indexes p.targeted_needs_more_evidence_decision_ids
        p.boundary_blocked_decision_ids p.evidence_leverage_items
    check_sequence indexes p.sequence_items
    checked (text_checks is_word is_digit (output_text p))
    expected ← derive_portfolio s
    compare_portfolio p expected

  unfoldable pub build_portfolio :
      Sources → Outcome SequencingError InvestigationSequencingPortfolio
  build_portfolio s = derive_portfolio s >>= λ p. validate_portfolio p s
