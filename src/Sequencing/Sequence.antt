-- ===== src/Sequencing/Sequence.antt =====
-- The order of the tasks in `_derive_portfolio` of src/intelligence/sequencing.py.
use Prim.Native.String.{◌++◌ as ◌<>◌}
use pulse_data_platform.Base.{
  ℕ, suc, String, Bool, true, false, Option, none, some, List, [], ◌∷◌, ◌++◌, map, any, length,
  select, str_eq, ltb, ◌==◌, not, Outcome, ok, err, ◌>>=◌, if◌then◌else◌,
}
use pulse_data_platform.Base.Decimal.{decimal}
use pulse_data_platform.Base.Dicts.{get, has, store}
use pulse_data_platform.Base.Sorting.{sort_by}
use pulse_data_platform.Base.Strict.{text_less, lex, by, not_after}
use pulse_data_platform.Intelligence.{
  OpportunityPriority, InvestigationReadiness, is_ready_now, readiness_value,
  InvestigationOpportunity, InvestigationTask, InvestigationPlan, DecisionReadinessAssessment,
}
use pulse_data_platform.Sequencing.Graph.{
  SequencingError, invalid, key_error, member, SourceIndexes, PlanTask,
}
use pulse_data_platform.Sequencing.Items.{InvestigationSequenceItem}
use pulse_data_platform.Sequencing.Contracts.{sequence_item}
use pulse_data_platform.Sequencing.Leverage.{must, less_priority, more}

abbrev pub TaskLinks : Type 0
TaskLinks = List (String × List DecisionReadinessAssessment)

abbrev pub linked : Option (List DecisionReadinessAssessment) → List DecisionReadinessAssessment
linked none = []
linked (some rows) = rows

-- A row of `unsorted_sequence`.
pub record SequenceEntry : Type 0 where
  pub can_begin : Bool
  pub priority : OpportunityPriority
  pub affected_count : ℕ
  pub opportunity_order : ℕ
  pub task_order : ℕ
  pub task_id : String
  pub plan : InvestigationPlan
  pub task : InvestigationTask
  pub opportunity : InvestigationOpportunity
  pub affected_decision_ids : List String
  pub addressed : List String

-- The key of the sort: `False`, a task that can begin, comes first.
unfoldable pub sequence_less : SequenceEntry → SequenceEntry → Bool
sequence_less = lex (by (λ (e : SequenceEntry). if e.can_begin then 0 else 1) ltb) (
    lex (by (λ (e : SequenceEntry). e.priority) less_priority) (
      lex (by (λ (e : SequenceEntry). e.affected_count) more) (
        lex (by (λ (e : SequenceEntry). e.opportunity_order) ltb) (
          lex (by (λ (e : SequenceEntry). e.task_order) ltb)
            (by (λ (e : SequenceEntry). e.task_id) text_less)))))

abbrev is_unresolved : List DecisionReadinessAssessment → String → Bool
is_unresolved assessments id =
    any (λ (a : DecisionReadinessAssessment). member id a.unresolved_requirement_ids) assessments

-- One round of the loop over `task_links.items()`, past the lookups.
abbrev pub entry_of :
    InvestigationPlan
    → InvestigationTask
    → InvestigationOpportunity
    → String
    → List DecisionReadinessAssessment
    → SequenceEntry
entry_of plan task o id assessments = record {
  can_begin = is_ready_now task.readiness;
  priority = o.priority;
  affected_count = length assessments;
  opportunity_order = o.opportunity_order;
  task_order = task.task_order;
  task_id = id;
  plan = plan;
  task = task;
  opportunity = o;
  affected_decision_ids = map (λ (a : DecisionReadinessAssessment). a.decision_id) assessments;
  addressed = select (is_unresolved assessments) task.required_requirement_ids;
}

abbrev plural : ℕ → String
plural n = if n == 1 then "" else "s"

unfoldable pub sequencing_reason : Bool → ℕ → InvestigationReadiness → String
unfolding decimal
sequencing_reason true n readiness =
    "This existing analytical task can begin now and could produce evidence relevant to "
    <> (decimal n <> (" current non-ready decision assessment" <> (plural n <> ".")))
sequencing_reason false n readiness =
    "This existing analytical task could produce evidence relevant to "
    <> (decimal n
        <> (" current non-ready decision assessment"
            <> (plural n
                <> (", but cannot begin now under its existing "
                    <> (readiness_value readiness <> " status.")))))

abbrev pub task_limitation : String
task_limitation =
    "Task readiness is not completion, and performing this investigation does not guarantee that a requirement will be resolved or a decision will become ready."

abbrev pub sequence_draft : ℕ → SequenceEntry → InvestigationSequenceItem
sequence_draft order e = record {
  sequence_order = order;
  task_id = e.task_id;
  investigation_plan_id = e.plan.plan_id;
  opportunity_id = e.opportunity.opportunity_id;
  task_title = e.task.title;
  task_kind = e.task.task_kind;
  task_readiness = e.task.readiness;
  affected_decision_ids = e.affected_decision_ids;
  addressed_requirement_ids = e.addressed;
  affected_decision_count = e.affected_count;
  opportunity_priority = e.priority;
  opportunity_order = e.opportunity_order;
  can_begin_now = e.can_begin;
  sequencing_reason = sequencing_reason e.can_begin e.affected_count e.task.readiness;
  limitation = task_limitation;
}

-- The loop over the sorted rows, numbered from `order`.
unfoldable pub sequence_items :
    ℕ → List SequenceEntry → Outcome SequencingError (List InvestigationSequenceItem)
sequence_items order [] = ok []
sequence_items order (e ∷ rest) = sequence_item (sequence_draft order e) >>= λ item.
    sequence_items (suc order) rest >>= λ items. ok (item ∷ items)

module _ (indexes : SourceIndexes) where
  -- The loop over `assessment.next_evidence_task_ids`.
  unfoldable pub link_tasks :
      DecisionReadinessAssessment → List String → TaskLinks → Outcome SequencingError TaskLinks
  link_tasks a [] links = ok links
  link_tasks a (t ∷ ts) links =
      let rest = link_tasks a ts (store str_eq t (linked (get str_eq t links) ++ a ∷ []) links) in
      if not (has str_eq t indexes.tasks) then err (invalid ("Unknown task ID: " <> t)) else rest

  -- The loop over the targeted assessments.
  unfoldable pub link_assessments :
      List DecisionReadinessAssessment → TaskLinks → Outcome SequencingError TaskLinks
  link_assessments [] links = ok links
  link_assessments (a ∷ rest) links =
      link_tasks a a.next_evidence_task_ids links >>= λ links'. link_assessments rest links'

  unfoldable pub sequence_entries : TaskLinks → Outcome SequencingError (List SequenceEntry)
  sequence_entries [] = ok []
  sequence_entries ((t, assessments) ∷ rest) =
      must key_error (get str_eq t indexes.tasks) >>= λ (found : PlanTask).
      must key_error (get str_eq found.0.opportunity_id indexes.opportunities) >>= λ o.
      sequence_entries rest >>= λ entries. ok (entry_of found.0 found.1 o t assessments ∷ entries)

  -- `ordered_sequence`
  unfoldable pub ordered_sequence :
      List DecisionReadinessAssessment → Outcome SequencingError (List InvestigationSequenceItem)
  ordered_sequence targeted = link_assessments targeted [] >>= λ links.
      sequence_entries links >>= λ entries.
      sequence_items 1 (sort_by (not_after sequence_less) entries)
