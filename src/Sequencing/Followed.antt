-- ===== src/Sequencing/Followed.antt =====
-- The sequence of a derived portfolio of src/intelligence/sequencing.py passes the checks of
-- `validate_investigation_sequencing_portfolio`.
use pulse_data_platform.Base.{
  ℕ, suc, ◌≡◌, refl, String, true, some, List, [], ◌∷◌, ◌++◌, All, All-map, All-append, str_eq,
  eq_refl, ok, >>=-elim_ok, arith, Option-cases, inl, inr, strip,
}
use pulse_data_platform.Base.Dicts.{get, store, All-store, All-get}
use pulse_data_platform.Intelligence.{DecisionReadinessAssessment}
use pulse_data_platform.Sequencing.Graph.{key_error, member, SourceIndexes, PlanTask}
use pulse_data_platform.Sequencing.Indexed.{IsTaskEntry}
use pulse_data_platform.Sequencing.Keyed.{text-IsKey}
use pulse_data_platform.Sequencing.Items.{InvestigationSequenceItem}
use pulse_data_platform.Sequencing.Contracts.{sequence_item}
use pulse_data_platform.Sequencing.Cleaned.{map-strip, sequence_item_lem}
use pulse_data_platform.Sequencing.Leverage.{must}
use pulse_data_platform.Sequencing.Sequence.{
  TaskLinks, linked, SequenceEntry, entry_of, sequence_draft, sequence_items, link_tasks,
  link_assessments, sequence_entries,
}
use pulse_data_platform.Sequencing.Portfolio.{decision_ids}
use pulse_data_platform.Sequencing.Affected.{must-eq-ok, All-member}
use pulse_data_platform.Sequencing.Building.{check_sequence_links, check_sequence}

module _ (indexes : SourceIndexes) where
  -- The decision waits for the task.
  abbrev pub Follows : String → String → Type 0
  Follows task id =
      (a : DecisionReadinessAssessment) × (get str_eq id indexes.decisions ≡ some a)
      × (member task a.next_evidence_task_ids ≡ true)
      × (strip id ≡ id)

  abbrev pub IsWaiting : DecisionReadinessAssessment → Type 0
  IsWaiting a =
      (get str_eq a.decision_id indexes.decisions ≡ some a)
      × (strip a.decision_id ≡ a.decision_id)
      × All (λ t. strip t ≡ t) a.next_evidence_task_ids

  abbrev IsNext : String → DecisionReadinessAssessment → Type 0
  IsNext task a =
      (get str_eq a.decision_id indexes.decisions ≡ some a)
      × (strip a.decision_id ≡ a.decision_id)
      × (member task a.next_evidence_task_ids ≡ true)

  abbrev IsLink : String → List DecisionReadinessAssessment → Type 0
  IsLink task rows = (strip task ≡ task) × All (IsNext task) rows

  abbrev pub AreLinks : TaskLinks → Type 0
  AreLinks d = All (λ (e : String × List DecisionReadinessAssessment). IsLink e.0 e.1) d

  linked_rows :
      (task : String) (links : TaskLinks)
      → AreLinks links
      → All (IsNext task) (linked (get str_eq task links))
  linked_rows task links h = elim (Option-cases (get str_eq task links)) [
    | inl new ↦ rw new tt
    | inr (rows, old) ↦
        let (clean, next) = All-get str_eq text-IsKey IsLink task rows links h old in rw old next
  ]

  link_tasks-AreLinks :
      (a : DecisionReadinessAssessment) (ts : List String) (links result : TaskLinks)
      → link_tasks indexes a ts links ≡ ok result
      → IsWaiting a
      → All (λ t. strip t ≡ t) ts
      → All (λ t. member t a.next_evidence_task_ids ≡ true) ts
      → AreLinks links
      → AreLinks result
  unfolding link_tasks
  link_tasks-AreLinks a [] links result h waits clean next old =
      let same : links ≡ result = cc in rw⁻¹ same old
  link_tasks-AreLinks a (t ∷ ts) links result h waits clean next old =
      let rows = linked (get str_eq t links) ++ a ∷ [] in
      let rest : link_tasks indexes a ts (store str_eq t rows links) ≡ ok result = ground arith in
      link_tasks-AreLinks a ts (store str_eq t rows links) result rest waits clean.1 next.1 (
        All-store str_eq text-IsKey IsLink t rows links
          (
            clean.0,
            All-append (IsNext t) (linked (get str_eq t links)) (a ∷ []) (linked_rows t links old)
                ((waits.0, waits.1, next.0), tt),
          )
          old)

  pub link_assessments-AreLinks :
      (rows : List DecisionReadinessAssessment) (links result : TaskLinks)
      → link_assessments indexes rows links ≡ ok result
      → All IsWaiting rows
      → AreLinks links
      → AreLinks result
  unfolding link_assessments
  link_assessments-AreLinks [] links result h waits old =
      let same : links ≡ result = cc in rw⁻¹ same old
  link_assessments-AreLinks (a ∷ rows) links result h waits old =
      >>=-elim_ok (link_tasks indexes a a.next_evidence_task_ids links) _ h λ links1 e1 h1.
        link_assessments-AreLinks rows links1 result h1 waits.1 (
          link_tasks-AreLinks a a.next_evidence_task_ids links links1 e1 waits.0 waits.0.2
            (All-member a.next_evidence_task_ids) old)

  abbrev pub IsEntry : SequenceEntry → Type 0
  IsEntry e =
      (get str_eq e.task_id indexes.tasks ≡ some (e.plan, e.task))
      × (strip e.task_id ≡ e.task_id)
      × (strip e.plan.plan_id ≡ e.plan.plan_id)
      × All (Follows e.task_id) e.affected_decision_ids

  followers :
      (task : String) (rows : List DecisionReadinessAssessment)
      → All (IsNext task) rows
      → All (Follows task) (decision_ids rows)
  followers task [] h = tt
  followers task (a ∷ rows) h = ((a, h.0.0, h.0.2, h.0.1), followers task rows h.1)

  module _ (entries : All (λ (e : String × PlanTask). IsTaskEntry e.0 e.1) indexes.tasks) where
    pub sequence_entries-IsEntry :
        (links : TaskLinks) (result : List SequenceEntry)
        → sequence_entries indexes links ≡ ok result
        → AreLinks links
        → All IsEntry result
    unfolding sequence_entries
    sequence_entries-IsEntry [] result h old = let same : [] ≡ result = cc in rw⁻¹ same tt
    sequence_entries-IsEntry ((t, rows) ∷ links) result h old =
        >>=-elim_ok (must key_error (get str_eq t indexes.tasks)) _ h λ found e1 h1.
          >>=-elim_ok (must key_error (get str_eq found.0.opportunity_id indexes.opportunities)) _
            h1
            λ o e2 h2. >>=-elim_ok (sequence_entries indexes links) _ h2 λ rest e3 h3.
              let same : entry_of found.0 found.1 o t rows ∷ rest ≡ result = cc in
              let at = must-eq-ok key_error (get str_eq t indexes.tasks) e1 in
              let made = All-get str_eq text-IsKey IsTaskEntry t found indexes.tasks entries at in
              rw⁻¹ same (
                (at, old.0.0, made.1, followers t rows old.0.1),
                sequence_entries-IsEntry links rest e3 old.1,
              )

  -- What the checks of an item ask.
  abbrev pub IsFollowed : InvestigationSequenceItem → Type 0
  IsFollowed i =
      (source : PlanTask) × (get str_eq i.task_id indexes.tasks ≡ some source)
      × (source.0.plan_id ≡ i.investigation_plan_id)
      × All (Follows i.task_id) i.affected_decision_ids

  pub sequence_items-IsFollowed :
      (order : ℕ) (rows : List SequenceEntry) (items : List InvestigationSequenceItem)
      → sequence_items order rows ≡ ok items
      → All IsEntry rows
      → All IsFollowed items
  unfolding sequence_items
  sequence_items-IsFollowed order [] items h old = let same : [] ≡ items = cc in rw⁻¹ same tt
  sequence_items-IsFollowed order (e ∷ rows) items h old =
      >>=-elim_ok (sequence_item (sequence_draft order e)) _ h λ item e1 h1.
        >>=-elim_ok (sequence_items (suc order) rows) _ h1 λ rest e2 h2.
          let same : item ∷ rest ≡ items = cc in
          let (at, task, plan, follow) = old.0 in
          let made = sequence_item_lem (sequence_draft order e) item e1 in
          let ids = map-strip e.affected_decision_ids (
            All-map (Follows e.task_id) (λ x. strip x ≡ x) (λ x a. a.3) e.affected_decision_ids
              follow) in
          let followed : IsFollowed item =
            rw⁻¹ made (rw (ids, task, plan) ((e.plan, e.task), at, refl, follow)) in
          rw⁻¹ same (followed, sequence_items-IsFollowed (suc order) rows rest e2 old.1)

  check_sequence_links_pass :
      (task : String) (ids : List String)
      → All (Follows task) ids
      → check_sequence_links indexes task ids ≡ ok tt
  unfolding check_sequence_links
  check_sequence_links_pass task [] h = refl
  check_sequence_links_pass task (id ∷ ids) h =
      let (a, found, next, _) = h.0 in rw (found, next) (check_sequence_links_pass task ids h.1)

  pub check_sequence_pass :
      (items : List InvestigationSequenceItem)
      → All IsFollowed items
      → check_sequence indexes items ≡ ok tt
  unfolding check_sequence
  check_sequence_pass [] h = refl
  check_sequence_pass (i ∷ items) h =
      let (source, found, plan, follow) = h.0 in
      rw
        (
          found,
          plan,
          eq_refl i.investigation_plan_id,
          check_sequence_links_pass i.task_id i.affected_decision_ids follow,
        )
        (check_sequence_pass items h.1)
