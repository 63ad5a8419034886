-- ===== src/Sequencing/Total.antt =====
-- `_derive_portfolio` of src/intelligence/sequencing.py returns, but for its constructors, once
-- `_validate_source_graph` has.
use pulse_data_platform.Base.{
  ◌≡◌, refl, subst, String, Bool, true, false, some, List, [], ◌∷◌, map, All, All-map,
  All-select_with, str_eq, eq_iff, ok, >>=-elim_ok, checked, arith, Bool-cases, inl, inr,
  Option-cases,
}
use pulse_data_platform.Base.Dicts.{get, has, All-get, has-eq-get}
use pulse_data_platform.Intelligence.{
  needs_evidence, InvestigationOpportunity, InvestigationTask, EvidenceRequirement,
  InvestigationPlan, DecisionReadinessAssessment,
}
use pulse_data_platform.Sequencing.Sources.{Sources}
use pulse_data_platform.Sequencing.Graph.{
  SequencingError, member, has_unknown, same_place, PlanTask, SourceIndexes, no_plans, index_plans,
}
use pulse_data_platform.Sequencing.Validation.{
  identity_checks, opportunity_checks, cover_checks, order_checks, index_opportunities,
  index_plan_ids, ids_of_plan, task_ids_of_plan, index_gaps, index_decisions, assessment_checks,
  validate_source_graph,
}
use pulse_data_platform.Sequencing.Indexed.{IsTaskOf, index_plans-entries, check_assessments-All}
use pulse_data_platform.Sequencing.Keyed.{text-IsKey, unique_index_keyed}
use pulse_data_platform.Sequencing.Resolved.{Holds, index_plans-Holds}
use pulse_data_platform.Sequencing.Leverage.{Aggregate, LeverageState, add_assessments}
use pulse_data_platform.Sequencing.Sequence.{
  TaskLinks, SequenceEntry, link_assessments, sequence_entries,
}
use pulse_data_platform.Sequencing.Portfolio.{targeted_of}
use pulse_data_platform.Sequencing.Lookups.{Resolves, IsPriced, add_assessments_total}
use pulse_data_platform.Sequencing.Gathered.{
  link_assessments_total, IsPlanKnown, sequence_entries_total, HasLeast, priced_least,
}

member_of_known :
    (known ids : List String) → has_unknown known ids ≡ false → All (λ x. member x known ≡ true) ids
member_of_known known [] h = tt
member_of_known known (x ∷ ids) h = (ground arith, member_of_known known ids (ground arith))

has_of_member {κ} :
    {A : Type κ} (key : A → String) (p : String → Bool) (rows : List A) (x : String)
    → member x (map key rows) ≡ true
    → All (λ r. p (key r) ≡ true) rows
    → p x ≡ true
has_of_member key p [] x h all = absurd (cc)
has_of_member key p (r ∷ rows) x h all = elim (Bool-cases (str_eq (key r) x)) [
  | inl e ↦ let here : key r ≡ x = (eq_iff (key r) x).0 e in rw⁻¹ here all.0
  | inr e ↦ has_of_member key p rows x (ground arith) all.1
]

holds_all {κ} :
    {A : Type κ} (key : A → String) (p : String → Bool) (rows : List A) (ids : List String)
    → has_unknown (map key rows) ids ≡ false
    → All (λ r. p (key r) ≡ true) rows
    → All (λ x. p x ≡ true) ids
holds_all key p rows ids h all =
    All-map (λ x. member x (map key rows) ≡ true) (λ x. p x ≡ true)
      (λ x there. has_of_member key p rows x there all) ids (member_of_known (map key rows) ids h)

All-refl :
    (rows : List InvestigationOpportunity)
    → All (λ (o : InvestigationOpportunity). o.opportunity_id ≡ o.opportunity_id) rows
All-refl [] = tt
All-refl (o ∷ rows) = (refl, All-refl rows)

abbrev Lookups : Sources → SourceIndexes → Type 0
Lookups s indexes =
    (state : LeverageState) × (links : TaskLinks) × (entries : List SequenceEntry)
    × (add_assessments indexes (targeted_of s) ([], 0) ≡ ok state)
    × (link_assessments indexes (targeted_of s) [] ≡ ok links)
    × (sequence_entries indexes links ≡ ok entries)
    × All (HasLeast indexes) state.0

lookups :
    (s : Sources) (indexes : SourceIndexes)
    → All (Resolves indexes) (targeted_of s)
    → All (λ (e : String × PlanTask). IsTaskOf (IsPlanKnown indexes) e.0 e.1) indexes.tasks
    → Lookups s indexes
lookups s indexes resolved known =
    let (state, e1, priced) = add_assessments_total indexes (targeted_of s) ([], 0) resolved tt in
    let (links, e2, linked_all) = link_assessments_total indexes (targeted_of s) [] resolved tt in
    let (entries, e3) = sequence_entries_total indexes links known linked_all in
    (
      state,
      links,
      entries,
      e1,
      e2,
      e3,
      All-map (λ (e : String × Aggregate). IsPriced indexes e.0 e.1) (HasLeast indexes)
          (priced_least indexes) state.0 priced,
    )

-- An assessment that passed its checks names what is there.
checked-Resolves :
    (s : Sources) (indexes : SourceIndexes) (a : DecisionReadinessAssessment)
    → All
        (λ (e : String × InvestigationPlan).
          Holds indexes.opportunities indexes.tasks indexes.requirements e.1)
        indexes.plans
    → All
        (λ (e : String × InvestigationOpportunity). e.1.opportunity_id ≡ e.0)
        indexes.opportunities
    → All
        (λ (t : Bool × SequencingError). t.0 ≡ false)
        (assessment_checks s.context indexes.opportunities indexes.plans a)
    → Resolves indexes a
checked-Resolves s indexes a plans named passed =
    elim (Option-cases (get str_eq a.originating_opportunity_id indexes.opportunities)) [
      | inl none_found ↦ absurd (ground (arith, passed.1.0))
      | inr (o, found) ↦ elim (Option-cases (get str_eq a.investigation_plan_id indexes.plans)) [
        | inl none_found ↦ absurd (ground (arith, passed.1.1.0))
        | inr (plan, placed) ↦
            let unresolved : has_unknown (ids_of_plan (some plan)) a.unresolved_requirement_ids
                ≡ false =
              rw placed at passed.1.1.1.1.1.0 in
            let next : has_unknown (task_ids_of_plan (some plan)) a.next_evidence_task_ids ≡ false =
              rw placed at passed.1.1.1.1.1.1.1.0 in
            let (tasks, requirements, _) =
              All-get str_eq text-IsKey
                (λ id plan. Holds indexes.opportunities indexes.tasks indexes.requirements plan)
                a.investigation_plan_id plan indexes.plans plans placed in
            let own : o.opportunity_id ≡ a.originating_opportunity_id =
              All-get str_eq text-IsKey (λ id (o : InvestigationOpportunity). o.opportunity_id ≡ id)
                a.originating_opportunity_id o indexes.opportunities named found in
            (
              o,
              plan,
              found,
              placed,
              holds_all (λ (r : EvidenceRequirement). r.requirement_id)
                  (λ r. has same_place (plan.plan_id, r) indexes.requirements)
                  plan.evidence_requirements a.unresolved_requirement_ids unresolved requirements,
              holds_all (λ (t : InvestigationTask). t.task_id) (λ t. has str_eq t indexes.tasks)
                  plan.tasks a.next_evidence_task_ids next tasks,
              rw own (
                  rw (has-eq-get str_eq a.originating_opportunity_id indexes.opportunities, found)
                    refl),
            )
      ]
    ]

-- Once the source graph is accepted, every lookup of the derivation succeeds: the requirements and
-- the tasks are gathered, the rows of the sequence are made, and each requirement gathered has a
-- highest priority. So no KeyError, no `min` of nothing and no unknown identity is raised, and only
-- the constructors of the items and of the portfolio can still refuse.
pub derive_portfolio_lookups :
    (s : Sources) (indexes : SourceIndexes)
    → validate_source_graph s ≡ ok indexes
    → (state : LeverageState) × (links : TaskLinks) × (entries : List SequenceEntry)
      × (add_assessments indexes (targeted_of s) ([], 0) ≡ ok state)
      × (link_assessments indexes (targeted_of s) [] ≡ ok links)
      × (sequence_entries indexes links ≡ ok entries)
      × All (HasLeast indexes) state.0
unfolding validate_source_graph
derive_portfolio_lookups s indexes h0 = >>=-elim_ok (checked (identity_checks s)) _ h0 λ u1 e1 h1.
    >>=-elim_ok (index_opportunities s.evaluation.opportunities) _ h1 λ opportunities e2 h2.
      >>=-elim_ok (checked (opportunity_checks s)) _ h2 λ u3 e3 h3.
        >>=-elim_ok (index_plan_ids s.investigation.plans) _ h3 λ plans e4 h4.
          >>=-elim_ok (checked (cover_checks s)) _ h4 λ u5 e5 h5.
            >>=-elim_ok (index_plans s.context opportunities s.investigation.plans no_plans) _ h5
              λ d e6 h6. >>=-elim_ok (index_gaps s.investigation.evidence_gaps) _ h6 λ gaps e7 h7.
                >>=-elim_ok (index_decisions s.decision.assessments) _ h7 λ decisions e8 h8.
                  >>=-elim_ok (checked (order_checks s)) _ h8 λ u9 e9 h9.
                    let made : SourceIndexes = record {
                      opportunities = opportunities;
                      plans = plans;
                      tasks = d.tasks;
                      requirements = d.requirements;
                      gaps = gaps;
                      decisions = decisions;
                    } in
                    let (same, passed) =
                      check_assessments-All s.context opportunities plans s.decision.assessments
                        made indexes h9 in
                    let held =
                      index_plans-Holds s.context opportunities s.investigation.plans no_plans d
                        e6 in
                    let holding =
                      unique_index_keyed (λ p. p.plan_id) "investigation plan ID"
                        (λ id p. Holds opportunities d.tasks d.requirements p) s.investigation.plans
                        plans e4 held in
                    let named =
                      unique_index_keyed (λ o. o.opportunity_id) "opportunity ID"
                        (λ id (o : InvestigationOpportunity). o.opportunity_id ≡ id)
                        s.evaluation.opportunities opportunities e2
                        (All-refl s.evaluation.opportunities) in
                    let known =
                      index_plans-entries (IsPlanKnown made) s.context opportunities
                        s.investigation.plans no_plans d
                        (All-map (Holds opportunities d.tasks d.requirements) (IsPlanKnown made)
                          (λ p h. h.2) s.investigation.plans held)
                        e6 (tt, tt) in
                    let resolved =
                      All-map _ (Resolves made)
                        (λ a checks. checked-Resolves s made a holding named checks)
                        s.decision.assessments passed in
                    subst (Lookups s) same (
                      lookups s made
                        (All-select_with (Resolves made) (Resolves made)
                          (λ (a : DecisionReadinessAssessment). needs_evidence a.readiness)
                          (λ a h _. h) s.decision.assessments resolved)
                        known.0)
