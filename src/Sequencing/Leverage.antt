-- ===== src/Sequencing/Leverage.antt =====
-- The leverage of unresolved evidence in `_derive_portfolio` of src/intelligence/sequencing.py.
use pulse_data_platform.Base.{
  ℕ, suc, String, Bool, Option, none, some, List, [], ◌∷◌, ◌++◌, map, length, str_eq, ltb, Outcome,
  ok, err, ◌>>=◌, if◌then◌else◌,
}
use pulse_data_platform.Base.Dicts.{get, store}
use pulse_data_platform.Base.Sorting.{sort_by}
use pulse_data_platform.Base.Strict.{text_less, lex, by, not_after}
use pulse_data_platform.Intelligence.{
  OpportunityPriority, priority_order, InvestigationOpportunity, EvidenceRequirement,
  InvestigationPlan, EvidenceGap, DecisionReadinessAssessment,
}
use pulse_data_platform.Sequencing.Graph.{
  SequencingError, invalid, key_error, empty_min, member, same_place, SourceIndexes, PlanTask,
}
use pulse_data_platform.Sequencing.Items.{EvidenceLeverageItem}
use pulse_data_platform.Sequencing.Contracts.{leverage_item}
use Prim.Native.String.{◌++◌ as ◌<>◌}

-- `d[key]`
abbrev pub must {ℓ} : {V : Type ℓ} → SequencingError → Option V → Outcome SequencingError V
must reason none = err reason
must reason (some v) = ok v

-- `_append_unique`
abbrev pub append_unique : List String → String → List String
append_unique values value = if member value values then values else values ++ value ∷ []

-- What is gathered for one requirement.
pub record Aggregate : Type 0 where
  pub requirement : EvidenceRequirement
  pub decisions : List String
  pub opportunities : List String
  pub tasks : List String
  pub first_appearance : ℕ

abbrev pub Aggregates : Type 0
Aggregates = List (String × Aggregate)

-- `leverage` and `appearance`
abbrev pub LeverageState : Type 0
LeverageState = Aggregates × ℕ

-- The aggregate that the requirement has, or the new one.
abbrev pub current : EvidenceRequirement → ℕ → Option Aggregate → Aggregate
current r appearance none = record {
  requirement = r;
  decisions = [];
  opportunities = [];
  tasks = [];
  first_appearance = appearance;
}
current r appearance (some g) = g

abbrev pub next_appearance : Option Aggregate → ℕ → ℕ
next_appearance none n = suc n
next_appearance (some g) n = n

abbrev pub less_priority : OpportunityPriority → OpportunityPriority → Bool
less_priority = by priority_order ltb

-- `min` keeps the first of the least ones.
abbrev pub min_from : OpportunityPriority → List OpportunityPriority → OpportunityPriority
min_from p [] = p
min_from p (q ∷ qs) = min_from (if less_priority q p then q else p) qs

abbrev pub min_priority : List OpportunityPriority → Outcome SequencingError OpportunityPriority
min_priority [] = err empty_min
min_priority (p ∷ ps) = ok (min_from p ps)

abbrev pub gap_id_of : Option EvidenceGap → Option String
gap_id_of none = none
gap_id_of (some g) = some g.gap_id

abbrev pub leverage_limitation : String
leverage_limitation =
    "This breadth count shows where unresolved evidence is relevant; obtaining it does not guarantee that any decision will become ready."

abbrev pub more : ℕ → ℕ → Bool
more m n = ltb n m

-- The key of the sort.
unfoldable pub leverage_less : ℕ × EvidenceLeverageItem → ℕ × EvidenceLeverageItem → Bool
leverage_less = lex (by (λ (e : ℕ × EvidenceLeverageItem). e.1.affected_decision_count) more) (
    lex (by (λ (e : ℕ × EvidenceLeverageItem). priority_order e.1.highest_opportunity_priority) ltb)
      (lex (by (λ (e : ℕ × EvidenceLeverageItem). e.1.affected_opportunity_count) more) (
        lex (by (λ (e : ℕ × EvidenceLeverageItem). e.0) ltb)
          (by (λ (e : ℕ × EvidenceLeverageItem). e.1.requirement_id) text_less))))

module _ (indexes : SourceIndexes) where
  -- The loop over `assessment.next_evidence_task_ids`.
  unfoldable pub related_tasks :
      String → List String → List String → Outcome SequencingError (List String)
  related_tasks requirement_id [] tasks = ok tasks
  related_tasks requirement_id (t ∷ ts) tasks =
      must (invalid ("Unknown task ID: " <> t)) (get str_eq t indexes.tasks)
      >>= λ (entry : PlanTask). related_tasks requirement_id ts (
          if member requirement_id entry.1.required_requirement_ids
          then append_unique tasks t
          else tasks)

  -- One round of the loop over `assessment.unresolved_requirement_ids`.
  unfoldable pub add_requirement :
      DecisionReadinessAssessment
      → InvestigationPlan
      → InvestigationOpportunity
      → String
      → LeverageState
      → Outcome SequencingError LeverageState
  add_requirement a plan o id (leverage, appearance) =
      must (invalid ("Unknown requirement ID: " <> id))
        (get same_place (plan.plan_id, id) indexes.requirements)
      >>= λ requirement.
          let found = get str_eq id leverage in
          let g = current requirement appearance found in
          related_tasks id a.next_evidence_task_ids g.tasks >>= λ tasks. ok (
            store str_eq id
                (record g {
                  decisions = append_unique g.decisions a.decision_id;
                  opportunities = append_unique g.opportunities o.opportunity_id;
                  tasks = tasks;
                })
                leverage,
            next_appearance found appearance,
          )

  unfoldable pub add_requirements :
      DecisionReadinessAssessment
      → InvestigationPlan
      → InvestigationOpportunity
      → List String
      → LeverageState
      → Outcome SequencingError LeverageState
  add_requirements a plan o [] s = ok s
  add_requirements a plan o (id ∷ ids) s =
      add_requirement a plan o id s >>= λ s'. add_requirements a plan o ids s'

  -- The loop over the targeted assessments.
  unfoldable pub add_assessments :
      List DecisionReadinessAssessment → LeverageState → Outcome SequencingError LeverageState
  add_assessments [] s = ok s
  add_assessments (a ∷ rest) s =
      must key_error (get str_eq a.investigation_plan_id indexes.plans) >>= λ plan.
      must key_error (get str_eq a.originating_opportunity_id indexes.opportunities) >>= λ o.
      add_requirements a plan o a.unresolved_requirement_ids s >>= λ s'. add_assessments rest s'

  -- `tuple(indexes.opportunities[item].priority for item in opportunity_ids)`
  unfoldable pub priorities_of : List String → Outcome SequencingError (List OpportunityPriority)
  priorities_of [] = ok []
  priorities_of (id ∷ ids) =
      must key_error (get str_eq id indexes.opportunities) >>= λ (o : InvestigationOpportunity).
      priorities_of ids >>= λ ps. ok (o.priority ∷ ps)

  abbrev pub leverage_draft : String → Aggregate → OpportunityPriority → EvidenceLeverageItem
  leverage_draft id g highest = record {
    requirement_id = g.requirement.requirement_id;
    requirement_name = g.requirement.name;
    description = g.requirement.description;
    requirement_status = g.requirement.status;
    affected_decision_ids = g.decisions;
    affected_opportunity_ids = g.opportunities;
    related_task_ids = g.tasks;
    affected_decision_count = length g.decisions;
    affected_opportunity_count = length g.opportunities;
    highest_opportunity_priority = highest;
    shared_across_decisions = ltb 1 (length g.decisions);
    shared_across_opportunities = ltb 1 (length g.opportunities);
    existing_gap_id = gap_id_of (get str_eq id indexes.gaps);
    limitation = leverage_limitation;
  }

  -- The loop over `leverage.items()`.
  unfoldable pub leverage_items :
      Aggregates → Outcome SequencingError (List (ℕ × EvidenceLeverageItem))
  leverage_items [] = ok []
  leverage_items ((id, g) ∷ rest) = priorities_of g.opportunities >>= λ priorities.
      min_priority priorities >>= λ highest. leverage_item (leverage_draft id g highest) >>= λ item.
      leverage_items rest >>= λ items. ok ((g.first_appearance, item) ∷ items)

  -- `ordered_leverage`
  unfoldable pub ordered_leverage :
      List DecisionReadinessAssessment → Outcome SequencingError (List EvidenceLeverageItem)
  ordered_leverage targeted = add_assessments targeted ([], 0) >>= λ s.
      leverage_items s.0 >>= λ items.
      ok (map (λ (e : ℕ × EvidenceLeverageItem). e.1) (sort_by (not_after leverage_less) items))
