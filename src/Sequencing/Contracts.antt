-- ===== src/Sequencing/Contracts.antt =====
-- The constructors of src/intelligence/sequencing_models.py. Each one normalizes its texts and tests
-- them; here the tests stand in a row, in the order of the source. What a type of the model rules
-- out, a wrong type or a negative number, is not tested again.
use Prim.Native.String.{◌++◌ as ◌<>◌}
use pulse_data_platform.Base.{
  String, Bool, true, false, not, Option, none, some, List, [], ◌∷◌, ◌++◌, map, find, length,
  str_eq, ◌==◌, ltb, strip, is_blank, Outcome, run_checks,
}
use pulse_data_platform.Base.Regex.{Regex}
use pulse_data_platform.Intelligence.{is_ready_now}
use pulse_data_platform.Sequencing.Graph.{SequencingError, invalid, member, has_repeat, counts_up}
use pulse_data_platform.Sequencing.Items.{
  EvidenceLeverageItem, InvestigationSequenceItem, InvestigationSequencingPortfolio,
  requirement_id_pattern, decision_id_pattern, opportunity_id_pattern, task_id_pattern,
  plan_id_pattern, gap_id_pattern, matches, text_check, id_checks, is_same_truth, strip_optional,
  fails,
}

abbrev pub clean_leverage_item : EvidenceLeverageItem → EvidenceLeverageItem
clean_leverage_item d = record d {
  requirement_id = strip d.requirement_id;
  requirement_name = strip d.requirement_name;
  description = strip d.description;
  limitation = strip d.limitation;
  affected_decision_ids = map strip d.affected_decision_ids;
  affected_opportunity_ids = map strip d.affected_opportunity_ids;
  related_task_ids = map strip d.related_task_ids;
  existing_gap_id = strip_optional d.existing_gap_id;
}

unfoldable pub leverage_item_checks : EvidenceLeverageItem → List (Bool × SequencingError)
leverage_item_checks d =
    (text_check "requirement_id" d.requirement_id
      ∷ text_check "requirement_name" d.requirement_name
      ∷ text_check "description" d.description
      ∷ text_check "limitation" d.limitation
      ∷ (
        not (matches requirement_id_pattern (strip d.requirement_id)),
        invalid "requirement_id has an invalid stable shape",
      )
      ∷ [])
    ++ (id_checks "affected_decision_ids" decision_id_pattern true d.affected_decision_ids
        ++ (id_checks "affected_opportunity_ids" opportunity_id_pattern true
              d.affected_opportunity_ids
            ++ (id_checks "related_task_ids" task_id_pattern false d.related_task_ids
                ++ ((
                  not (d.affected_decision_count == length d.affected_decision_ids),
                  invalid "affected_decision_count is inconsistent",
                )
                    ∷ (
                      not (d.affected_opportunity_count == length d.affected_opportunity_ids),
                      invalid "affected_opportunity_count is inconsistent",
                    )
                    ∷ (
                      not (
                          is_same_truth d.shared_across_decisions
                            (ltb 1 d.affected_decision_count)),
                      invalid "shared_across_decisions is inconsistent",
                    )
                    ∷ (
                      not (
                          is_same_truth d.shared_across_opportunities
                            (ltb 1 d.affected_opportunity_count)),
                      invalid "shared_across_opportunities is inconsistent",
                    )
                    ∷ (
                      fails is_blank d.existing_gap_id,
                      invalid "existing_gap_id must be non-empty text",
                    )
                    ∷ (
                      fails (λ g. not (matches gap_id_pattern (strip g))) d.existing_gap_id,
                      invalid "existing_gap_id has an invalid stable shape",
                    )
                    ∷ []))))

unfoldable pub leverage_item : EvidenceLeverageItem → Outcome SequencingError EvidenceLeverageItem
leverage_item d = run_checks (leverage_item_checks d) (clean_leverage_item d)

abbrev pub clean_sequence_item : InvestigationSequenceItem → InvestigationSequenceItem
clean_sequence_item d = record d {
  task_id = strip d.task_id;
  investigation_plan_id = strip d.investigation_plan_id;
  opportunity_id = strip d.opportunity_id;
  task_title = strip d.task_title;
  sequencing_reason = strip d.sequencing_reason;
  limitation = strip d.limitation;
  affected_decision_ids = map strip d.affected_decision_ids;
  addressed_requirement_ids = map strip d.addressed_requirement_ids;
}

abbrev shape_checks : String → Regex → String → List (Bool × SequencingError)
shape_checks field r value =
    text_check field value
    ∷ (not (matches r (strip value)), invalid (field <> " has an invalid stable shape"))
    ∷ []

unfoldable pub sequence_item_checks : InvestigationSequenceItem → List (Bool × SequencingError)
sequence_item_checks d =
    ((d.sequence_order == 0, invalid "sequence_order must be a positive integer")
      ∷ (d.opportunity_order == 0, invalid "opportunity_order must be a positive integer")
      ∷ [])
    ++ (shape_checks "task_id" task_id_pattern d.task_id
        ++ (shape_checks "investigation_plan_id" plan_id_pattern d.investigation_plan_id
            ++ (shape_checks "opportunity_id" opportunity_id_pattern d.opportunity_id
                ++ ((text_check "task_title" d.task_title
                      ∷ text_check "sequencing_reason" d.sequencing_reason
                      ∷ text_check "limitation" d.limitation
                      ∷ [])
                    ++ (id_checks "affected_decision_ids" decision_id_pattern true
                          d.affected_decision_ids
                        ++ (id_checks "addressed_requirement_ids" requirement_id_pattern false
                              d.addressed_requirement_ids
                            ++ ((
                              not (d.affected_decision_count == length d.affected_decision_ids),
                              invalid "affected_decision_count is inconsistent",
                            )
                                ∷ (
                                  not (
                                      is_same_truth d.can_begin_now
                                        (is_ready_now d.task_readiness)),
                                  invalid
                                      "can_begin_now must derive only from READY_NOW task readiness",
                                )
                                ∷ [])))))))

unfoldable pub sequence_item :
    InvestigationSequenceItem → Outcome SequencingError InvestigationSequenceItem
sequence_item d = run_checks (sequence_item_checks d) (clean_sequence_item d)

abbrev requirement_ids_of : List EvidenceLeverageItem → List String
requirement_ids_of items = map (λ (i : EvidenceLeverageItem). i.requirement_id) items

abbrev task_ids_of : List InvestigationSequenceItem → List String
task_ids_of items = map (λ (i : InvestigationSequenceItem). i.task_id) items

-- No item of that task can begin: the first one is looked at.
abbrev is_unstartable : List InvestigationSequenceItem → String → Bool
is_unstartable items id =
    is_blocked (find (λ (i : InvestigationSequenceItem). str_eq i.task_id id) items)
  where
    is_blocked : Option InvestigationSequenceItem → Bool
    is_blocked none = true
    is_blocked (some i) = not i.can_begin_now

abbrev pub clean_portfolio : InvestigationSequencingPortfolio → InvestigationSequencingPortfolio
clean_portfolio d = record d {
  business_id = strip d.business_id;
  limitation = strip d.limitation;
  targeted_needs_more_evidence_decision_ids = map strip d.targeted_needs_more_evidence_decision_ids;
  boundary_blocked_decision_ids = map strip d.boundary_blocked_decision_ids;
  top_evidence_focus_requirement_id = strip_optional d.top_evidence_focus_requirement_id;
  recommended_next_task_id = strip_optional d.recommended_next_task_id;
}

unfoldable pub portfolio_checks : InvestigationSequencingPortfolio → List (Bool × SequencingError)
portfolio_checks d =
    (text_check "business_id" d.business_id ∷ text_check "limitation" d.limitation ∷ [])
    ++ (id_checks "targeted_needs_more_evidence_decision_ids" decision_id_pattern false
          d.targeted_needs_more_evidence_decision_ids
        ++ (id_checks "boundary_blocked_decision_ids" decision_id_pattern false
              d.boundary_blocked_decision_ids
            ++ ((
              not (
                  counts_up 1
                    (map (λ (i : InvestigationSequenceItem). i.sequence_order) d.sequence_items)),
              invalid "sequence orders must be unique and contiguous",
            )
                ∷ (
                  has_repeat (requirement_ids_of d.evidence_leverage_items),
                  invalid "evidence leverage requirements cannot duplicate",
                )
                ∷ (
                  has_repeat (task_ids_of d.sequence_items),
                  invalid "sequence tasks cannot duplicate",
                )
                ∷ (
                  fails is_blank d.top_evidence_focus_requirement_id,
                  invalid "top_evidence_focus_requirement_id must be non-empty text",
                )
                ∷ (
                  fails (λ r. not (member (strip r) (requirement_ids_of d.evidence_leverage_items)))
                      d.top_evidence_focus_requirement_id,
                  invalid "top evidence focus must reference a leverage item",
                )
                ∷ (
                  fails is_blank d.recommended_next_task_id,
                  invalid "recommended_next_task_id must be non-empty text",
                )
                ∷ (
                  fails (λ t. is_unstartable d.sequence_items (strip t)) d.recommended_next_task_id,
                  invalid "recommended task must be a startable sequence item",
                )
                ∷ [])))

unfoldable pub sequencing_portfolio :
    InvestigationSequencingPortfolio → Outcome SequencingError InvestigationSequencingPortfolio
sequencing_portfolio d = run_checks (portfolio_checks d) (clean_portfolio d)
