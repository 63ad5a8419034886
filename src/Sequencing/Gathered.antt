-- ===== src/Sequencing/Gathered.antt =====
-- The loops of `_derive_portfolio` in src/intelligence/sequencing.py over links and entries return
-- where what they look up is there.
use pulse_data_platform.Base.{◌≡◌, refl, sym, subst, String, List, [], ◌∷◌, ◌++◌, All, str_eq, ok}
use pulse_data_platform.Base.Dicts.{get, store, All-get, All-store, found_of_has}
use pulse_data_platform.Intelligence.{
  OpportunityPriority, InvestigationPlan, DecisionReadinessAssessment,
}
use pulse_data_platform.Sequencing.Graph.{PlanTask, SourceIndexes}
use pulse_data_platform.Sequencing.Indexed.{IsTaskOf}
use pulse_data_platform.Sequencing.Keyed.{text-IsKey}
use pulse_data_platform.Sequencing.Leverage.{Aggregate, priorities_of}
use pulse_data_platform.Sequencing.Sequence.{
  TaskLinks, linked, SequenceEntry, entry_of, link_tasks, link_assessments, sequence_entries,
}
use pulse_data_platform.Sequencing.Lookups.{
  Resolves, HasTask, HasOpportunity, IsPriced, priorities_of_total,
}

module _ (indexes : SourceIndexes) where
  abbrev HasLink : String → List DecisionReadinessAssessment → Type 0
  HasLink t rows = HasTask indexes t

  abbrev AreLinked : TaskLinks → Type 0
  AreLinked d = All (λ (e : String × List DecisionReadinessAssessment). HasLink e.0 e.1) d

  link_tasks_total :
      (a : DecisionReadinessAssessment) (ts : List String) (links : TaskLinks)
      → All (HasTask indexes) ts
      → AreLinked links
      → (result : TaskLinks) × (link_tasks indexes a ts links ≡ ok result) × AreLinked result
  unfolding link_tasks
  link_tasks_total a [] links h old = (links, refl, old)
  link_tasks_total a (t ∷ ts) links h old =
      let rows = linked (get str_eq t links) ++ a ∷ [] in
      rw h.0 (
        link_tasks_total a ts (store str_eq t rows links) h.1
          (All-store str_eq text-IsKey HasLink t rows links h.0 old))

  pub link_assessments_total :
      (rows : List DecisionReadinessAssessment) (links : TaskLinks)
      → All (Resolves indexes) rows
      → AreLinked links
      → (result : TaskLinks) × (link_assessments indexes rows links ≡ ok result) × AreLinked result
  unfolding link_assessments
  link_assessments_total [] links h old = (links, refl, old)
  link_assessments_total (a ∷ rows) links h old =
      let (o, plan, _, _, _, tasks, _) = h.0 in
      let (links1, e, new) = link_tasks_total a a.next_evidence_task_ids links tasks old in
      rw e (link_assessments_total rows links1 h.1 new)

  abbrev pub IsPlanKnown : InvestigationPlan → Type 0
  IsPlanKnown plan = HasOpportunity indexes plan.opportunity_id

  pub sequence_entries_total :
      (links : TaskLinks)
      → All (λ (e : String × PlanTask). IsTaskOf IsPlanKnown e.0 e.1) indexes.tasks
      → AreLinked links
      → (entries : List SequenceEntry) × (sequence_entries indexes links ≡ ok entries)
  unfolding sequence_entries
  sequence_entries_total [] plans h = ([], refl)
  sequence_entries_total ((t, rows) ∷ links) plans h =
      let (found, e) = found_of_has str_eq t indexes.tasks h.0 in
      let known = All-get str_eq text-IsKey (IsTaskOf IsPlanKnown) t found indexes.tasks plans e in
      let (o, e2) = found_of_has str_eq found.0.opportunity_id indexes.opportunities known.1 in
      let (entries, rest) = sequence_entries_total links plans h.1 in
      (entry_of found.0 found.1 o t rows ∷ entries, rw (e, e2, rest) refl)

  -- Each aggregate has a least priority.
  abbrev pub HasLeast : String × Aggregate → Type 0
  HasLeast e =
      (p : OpportunityPriority) × (ps : List OpportunityPriority) × (priorities_of indexes
          e.1.opportunities
        ≡ ok (p ∷ ps))

  pub priced_least : (e : String × Aggregate) → IsPriced indexes e.0 e.1 → HasLeast e
  unfolding priorities_of
  priced_least e ((o, os, shape), known) =
      let all : All (HasOpportunity indexes) (o ∷ os) =
        subst (λ ids. All (HasOpportunity indexes) ids) shape known in
      let (first, found) = found_of_has str_eq o indexes.opportunities all.0 in
      let (ps, rest) = priorities_of_total indexes os all.1 in
      (
        first.priority,
        ps,
        subst (λ ids. priorities_of indexes ids ≡ ok (first.priority ∷ ps)) (sym shape)
            (rw (found, rest) refl),
      )
