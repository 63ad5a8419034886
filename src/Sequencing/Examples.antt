-- ===== src/Sequencing/Examples.antt =====
-- The sequencing of src/intelligence/sequencing.py at one opportunity with two tasks and two decisions.
use pulse_data_platform.Base.{
  count, ℕ, ◌≡◌, ◌+◌, refl, String, Bool, true, ◌||◌, leb, ◌==◌, is_blank, some, List, [], ◌∷◌, All,
  any, str_eq, ok, err, ◌&&◌, ◌>>=◌, ◌>>◌, checked, strip, length,
}
use pulse_data_platform.Intelligence.{DecisionReadinessAssessment, needs_evidence, is_at_boundary}
use pulse_data_platform.Sequencing.Sources.{Sources}
use pulse_data_platform.Base.Regex.{ends, full_match, lit, fold_case, repeat}
use pulse_data_platform.Base.Decimal.{decimal}
use pulse_data_platform.Base.Dicts.{get, store}
use pulse_data_platform.Base.Sorting.{insert_by, sort_by, IsSorted}
use pulse_data_platform.Base.Strict.{text_less, not_after}
use pulse_data_platform.Sequencing.Graph.{
  invalid, SourceIndexes, member, counts_up, unique_index, index_from, index_tasks,
  index_requirements, index_plans,
}
use pulse_data_platform.Sequencing.Contracts.{
  leverage_item, leverage_item_checks, sequence_item, sequence_item_checks, sequencing_portfolio,
  portfolio_checks,
}
use pulse_data_platform.Sequencing.Total.{derive_portfolio_lookups}
use pulse_data_platform.Sequencing.Gathered.{HasLeast}
use pulse_data_platform.Sequencing.Recommendation.{
  IsStateFor, derive_portfolio-IsSorted, derive_portfolio-state,
}
use pulse_data_platform.Sequencing.Ordered.{weighs_more}
use pulse_data_platform.Sequencing.Ranking.{ranks_before, orders, first_startable}
use pulse_data_platform.Sequencing.Reference.{names, IsTally}
use pulse_data_platform.Sequencing.Breadth.{derive_portfolio-leverage}
use pulse_data_platform.Sequencing.Accepted.{build_portfolio_lem}
use pulse_data_platform.Sequencing.Safety.{text_checks, output_text}
use pulse_data_platform.Sequencing.Items.{InvestigationSequenceItem, ready_task_available}
use pulse_data_platform.Sequencing.Validation.{check_assessments, validate_source_graph}
use pulse_data_platform.Sequencing.Portfolio.{derive_portfolio, state_of, focus_of}
use pulse_data_platform.Sequencing.Leverage.{
  LeverageState, related_tasks, add_requirement, add_requirements, add_assessments, priorities_of,
  leverage_items, leverage_less, ordered_leverage,
}
use pulse_data_platform.Sequencing.Sequence.{
  TaskLinks, SequenceEntry, link_tasks, link_assessments, sequence_entries, sequence_items,
  sequence_less, sequencing_reason, ordered_sequence,
}
use pulse_data_platform.Sequencing.Building.{build_portfolio}
use pulse_data_platform.Sequencing.Sample.{
  funnel, cohort, comparing, collecting, plan, open_decision, closed_decision, sample,
  sample-IsClean, cohort_item, comparing_item, collecting_item, derived,
}

abbrev crossed : Sources
crossed = record sample {
  context = record { business_id = "other"; as_of_date = 9; economic_facts = [] };
}

crossed_is_refused :
    derive_portfolio crossed ≡ err (invalid "Sequencing inputs cross business or date boundaries")
unfolding derive_portfolio validate_source_graph
crossed_is_refused = refl

derive_portfolio_test : derive_portfolio sample ≡ ok derived
unfolding derive_portfolio validate_source_graph unique_index index_plans index_tasks
    index_requirements get check_assessments ordered_leverage add_assessments add_requirements
    add_requirement store related_tasks leverage_items priorities_of leverage_item
    leverage_item_checks decimal ends fold_case full_match lit repeat insert_by sort_by text_less
    is_blank strip portfolio_checks sequence_item sequence_item_checks sequencing_portfolio
    index_from leverage_less state_of link_assessments link_tasks ordered_sequence sequence_entries
    sequence_items sequence_less sequencing_reason
derive_portfolio_test = refl

abbrev indexes : SourceIndexes
indexes = record {
  opportunities = ("opportunity:leak:all", funnel) ∷ [];
  plans = ("investigation-plan:leak:all", plan) ∷ [];
  tasks =
      ("investigation-task:leak:all:collect", (plan, collecting))
      ∷ ("investigation-task:leak:all:compare", (plan, comparing))
      ∷ [];
  requirements = (("investigation-plan:leak:all", "requirement:cohort"), cohort) ∷ [];
  gaps = [];
  decisions =
      ("decision-readiness:leak:all:direction", open_decision)
      ∷ ("decision-readiness:leak:all:change", closed_decision)
      ∷ [];
}

validate_source_graph_test : validate_source_graph sample ≡ ok indexes
unfolding validate_source_graph unique_index index_from index_plans index_tasks index_requirements
    get store check_assessments
validate_source_graph_test = refl

derive_portfolio_lookups_example :
    (state : LeverageState) × (links : TaskLinks) × (entries : List SequenceEntry)
    × (add_assessments indexes (open_decision ∷ []) ([], 0) ≡ ok state)
    × (link_assessments indexes (open_decision ∷ []) [] ≡ ok links)
    × (sequence_entries indexes links ≡ ok entries)
    × All (HasLeast indexes) state.0
derive_portfolio_lookups_example =
    derive_portfolio_lookups sample indexes validate_source_graph_test

derive_portfolio-IsSorted_example :
    IsSorted (not_after weighs_more) (cohort_item ∷ [])
    × (some "requirement:cohort" ≡ focus_of (cohort_item ∷ []))
    × IsSorted (not_after ranks_before) (comparing_item ∷ collecting_item ∷ [])
    × (counts_up 1 (orders (comparing_item ∷ collecting_item ∷ [])) ≡ true)
    × (some "investigation-task:leak:all:compare"
        ≡ first_startable (comparing_item ∷ collecting_item ∷ []))
derive_portfolio-IsSorted_example = derive_portfolio-IsSorted sample derived derive_portfolio_test

derive_portfolio-state_example :
    (1
      ≡ count
          (λ (i : InvestigationSequenceItem). i.can_begin_now)
          (comparing_item ∷ collecting_item ∷ []))
    × (1 + 1 ≡ length (comparing_item ∷ collecting_item ∷ []))
    × IsStateFor ready_task_available 1
        (count
          (λ (a : DecisionReadinessAssessment). needs_evidence a.readiness)
          sample.decision.assessments)
        (count
          (λ (a : DecisionReadinessAssessment). is_at_boundary a.readiness)
          sample.decision.assessments)
derive_portfolio-state_example = derive_portfolio-state sample derived derive_portfolio_test

derive_portfolio-leverage_example :
    ((requirement id : String)
      → any (names requirement id) (cohort_item ∷ [])
        ≡ any
            (λ (a : DecisionReadinessAssessment).
              (member requirement a.unresolved_requirement_ids && str_eq a.decision_id id)
              && needs_evidence a.readiness)
            (open_decision ∷ closed_decision ∷ []))
    × All IsTally (cohort_item ∷ [])
derive_portfolio-leverage_example =
    derive_portfolio-leverage sample derived sample-IsClean derive_portfolio_test

abbrev digit : ℕ → Bool
digit c = leb 48 c && leb c 57

abbrev word : ℕ → Bool
word c = digit c || leb 65 c && leb c 90 || leb 97 c && leb c 122 || c == 95

build_portfolio_lem_example :
    build_portfolio word digit sample
    ≡ (derive_portfolio sample >>= λ p. (checked (text_checks word digit (output_text p)) >> ok p))
build_portfolio_lem_example = build_portfolio_lem word digit sample sample-IsClean
