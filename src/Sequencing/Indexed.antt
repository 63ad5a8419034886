-- ===== src/Sequencing/Indexed.antt =====
-- What `_validate_source_graph` of src/intelligence/sequencing.py has established when it returns.
use pulse_data_platform.Base.{
  ◌≡◌, refl, subst, String, Bool, false, some, List, [], ◌∷◌, ◌++◌, All, All-append, str_eq, eq_iff,
  ok, ◌>>=◌, >>=-eq-ok, >>=-elim_ok, checked, run_checks-eq-ok, arith, strip,
}
use pulse_data_platform.Base.Dicts.{get, All-store}
use pulse_data_platform.Intelligence.{
  IntelligenceContext, InvestigationOpportunity, InvestigationTask, EvidenceRequirement,
  InvestigationPlan, DecisionReadinessAssessment,
}
use pulse_data_platform.Sequencing.Sources.{Sources}
use pulse_data_platform.Sequencing.Graph.{
  SequencingError, same_place, Place, PlanTask, SourceIndexes, PlanIndexes, no_plans, index_tasks,
  index_requirements, index_plans, with_requirement,
}
use pulse_data_platform.Sequencing.Validation.{
  identity_checks, opportunity_checks, cover_checks, order_checks, index_opportunities,
  index_plan_ids, index_gaps, index_decisions, assessment_checks, check_assessments,
  validate_source_graph,
}
use pulse_data_platform.Sequencing.Keyed.{place-IsKey, unique_index_finds}

abbrev pub IsCleanPlan : InvestigationPlan → Type 0
IsCleanPlan p = strip p.plan_id ≡ p.plan_id

-- The entries of the tasks: the task's own identity, and what is known of its plan.
abbrev pub IsTaskOf : (InvestigationPlan → Type 0) → String → PlanTask → Type 0
IsTaskOf P id entry = (entry.1.task_id ≡ id) × P entry.0

abbrev pub IsTaskEntry : String → PlanTask → Type 0
IsTaskEntry = IsTaskOf IsCleanPlan

abbrev pub IsRequirementEntry : Place → EvidenceRequirement → Type 0
IsRequirementEntry place r = r.requirement_id ≡ place.1

module _ (P : InvestigationPlan → Type 0) where
  abbrev pub AreEntries : PlanIndexes → Type 0
  AreEntries d =
      All (λ (e : String × PlanTask). IsTaskOf P e.0 e.1) d.tasks
      × All (λ (e : Place × EvidenceRequirement). IsRequirementEntry e.0 e.1) d.requirements

  index_tasks-entries :
      (plan : InvestigationPlan) (ts : List InvestigationTask) (seen : List String)
      (tasks result : List (String × PlanTask))
      → P plan
      → index_tasks plan ts seen tasks ≡ ok result
      → All (λ (e : String × PlanTask). IsTaskOf P e.0 e.1) tasks
      → All (λ (e : String × PlanTask). IsTaskOf P e.0 e.1) result
  unfolding index_tasks
  index_tasks-entries plan [] seen tasks result clean h old =
      let same : tasks ≡ result = cc in rw⁻¹ same old
  index_tasks-entries plan (t ∷ ts) seen tasks result clean h old =
      let next = tasks ++ (t.task_id, (plan, t)) ∷ [] in
      let rest : index_tasks plan ts (t.task_id ∷ seen) next ≡ ok result = ground arith in
      index_tasks-entries plan ts (t.task_id ∷ seen) next result clean rest (
        All-append (λ (e : String × PlanTask). IsTaskOf P e.0 e.1) tasks
          ((t.task_id, (plan, t)) ∷ []) old ((refl, clean), tt))

  index_requirements-entries :
      (plan : InvestigationPlan) (rs : List EvidenceRequirement) (seen : List String)
      (d result : PlanIndexes)
      → index_requirements plan rs seen d ≡ ok result
      → AreEntries d
      → AreEntries result
  unfolding index_requirements
  index_requirements-entries plan [] seen d result h old =
      let same : d ≡ result = cc in rw⁻¹ same old
  index_requirements-entries plan (r ∷ rs) seen d result h old =
      let next = with_requirement plan r d in
      let rest : index_requirements plan rs (r.requirement_id ∷ seen) next ≡ ok result =
        ground arith in
      index_requirements-entries plan rs (r.requirement_id ∷ seen) next result rest (
        old.0,
        All-store same_place place-IsKey IsRequirementEntry (plan.plan_id, r.requirement_id) r
            d.requirements refl old.1,
      )

  pub index_plans-entries :
      (c : IntelligenceContext) (opportunities : List (String × InvestigationOpportunity))
      (ps : List InvestigationPlan) (d result : PlanIndexes)
      → All P ps
      → index_plans c opportunities ps d ≡ ok result
      → AreEntries d
      → AreEntries result
  unfolding index_plans
  index_plans-entries c opportunities [] d result clean h old =
      let same : d ≡ result = cc in rw⁻¹ same old
  index_plans-entries c opportunities (p ∷ ps) d result clean h old =
      let chain : (index_tasks p p.tasks [] d.tasks >>= λ tasks.
      index_requirements p p.evidence_requirements [] (record d { tasks = tasks }) >>= λ d'.
      index_plans c opportunities ps d')
          ≡ ok result =
        ground arith in
      let (tasks, indexed, h1) =
        >>=-eq-ok (index_tasks p p.tasks [] d.tasks)
          (λ tasks.
            index_requirements p p.evidence_requirements [] (record d { tasks = tasks }) >>= λ d'.
            index_plans c opportunities ps d')
          chain in
      let (d', required, h2) =
        >>=-eq-ok (index_requirements p p.evidence_requirements [] (record d { tasks = tasks }))
          (λ d'. index_plans c opportunities ps d') h1 in
      let entries = index_tasks-entries p p.tasks [] d.tasks tasks clean.0 indexed old.0 in
      index_plans-entries c opportunities ps d' result clean.1 h2 (
        index_requirements-entries p p.evidence_requirements [] (record d { tasks = tasks }) d'
          required (entries, old.1))

pub check_assessments-All :
    (c : IntelligenceContext) (opportunities : List (String × InvestigationOpportunity))
    (plans : List (String × InvestigationPlan)) {A : Type 0}
    (rows : List DecisionReadinessAssessment) (value result : A)
    → check_assessments c opportunities plans rows value ≡ ok result
    → (value ≡ result)
      × All
          (λ a.
            All
              (λ (t : Bool × SequencingError). t.0 ≡ false)
              (assessment_checks c opportunities plans a))
          rows
unfolding check_assessments
check_assessments-All c opportunities plans [] value result h = (cc, tt)
check_assessments-All c opportunities plans (a ∷ rows) value result h =
    let (done, passed, rest) =
      >>=-eq-ok (checked (assessment_checks c opportunities plans a))
        (λ _. check_assessments c opportunities plans rows value) h in
    let (same, all) = check_assessments-All c opportunities plans rows value result rest in
    (same, ((run_checks-eq-ok (assessment_checks c opportunities plans a) tt done passed).1, all))

-- The source records as their constructors leave them: identities carry no white space around.
pub record IsClean (s : Sources) : Type 0 where
  pub business : strip s.decision.business_id ≡ s.decision.business_id
  pub plans : All IsCleanPlan s.investigation.plans
  pub decisions :
      All
        (λ (a : DecisionReadinessAssessment).
          (strip a.decision_id ≡ a.decision_id)
          × All (λ r. strip r ≡ r) a.unresolved_requirement_ids
          × All (λ t. strip t ≡ t) a.next_evidence_task_ids)
        s.decision.assessments

pub record IsGraph (s : Sources) (indexes : SourceIndexes) : Type 0 where
  pub business : s.decision.business_id ≡ s.context.business_id
  pub decisions :
      All
        (λ (a : DecisionReadinessAssessment). get str_eq a.decision_id indexes.decisions ≡ some a)
        s.decision.assessments
  pub tasks : All (λ (e : String × PlanTask). IsTaskEntry e.0 e.1) indexes.tasks
  pub requirements :
      All (λ (e : Place × EvidenceRequirement). IsRequirementEntry e.0 e.1) indexes.requirements

pub validate_source_graph-IsGraph :
    (s : Sources) (indexes : SourceIndexes)
    → IsClean s
    → validate_source_graph s ≡ ok indexes
    → IsGraph s indexes
unfolding validate_source_graph
validate_source_graph-IsGraph s indexes clean h0 =
    >>=-elim_ok (checked (identity_checks s)) _ h0 λ u1 e1 h1.
      >>=-elim_ok (index_opportunities s.evaluation.opportunities) _ h1 λ opportunities e2 h2.
        >>=-elim_ok (checked (opportunity_checks s)) _ h2 λ u3 e3 h3.
          >>=-elim_ok (index_plan_ids s.investigation.plans) _ h3 λ plans e4 h4.
            >>=-elim_ok (checked (cover_checks s)) _ h4 λ u5 e5 h5.
              >>=-elim_ok (index_plans s.context opportunities s.investigation.plans no_plans) _ h5
                λ d e6 h6. >>=-elim_ok (index_gaps s.investigation.evidence_gaps) _ h6 λ gaps e7 h7.
                  >>=-elim_ok (index_decisions s.decision.assessments) _ h7 λ decisions e8 h8.
                    >>=-elim_ok (checked (order_checks s)) _ h8 λ u9 e9 h9.
                      let (same, all) =
                        check_assessments-All s.context opportunities plans s.decision.assessments
                          (record {
                            opportunities = opportunities;
                            plans = plans;
                            tasks = d.tasks;
                            requirements = d.requirements;
                            gaps = gaps;
                            decisions = decisions;
                          })
                          indexes h9 in
                      let passed = (run_checks-eq-ok (identity_checks s) tt u1 e1).1.0 in
                      let entries =
                        index_plans-entries IsCleanPlan s.context opportunities
                          s.investigation.plans no_plans d clean.plans e6 (tt, tt) in
                      let graph : IsGraph s (record {
                        opportunities = opportunities;
                        plans = plans;
                        tasks = d.tasks;
                        requirements = d.requirements;
                        gaps = gaps;
                        decisions = decisions;
                      }) =
                        record {
                          business =
                              ground (arith, eq_iff s.decision.business_id s.context.business_id);
                          decisions =
                              unique_index_finds (λ a. a.decision_id) "decision ID"
                                s.decision.assessments decisions e8;
                          tasks = entries.0;
                          requirements = entries.1;
                        } in
                      subst (IsGraph s) same graph
