-- ===== src/Sequencing/Resolved.antt =====
-- What `_validate_source_graph` of src/intelligence/sequencing.py has checked can be looked up.
use pulse_data_platform.Base.{
  ◌≡◌, refl, String, true, List, [], ◌∷◌, ◌++◌, All, All-map, str_eq, eq_refl, ok, ◌>>=◌,
  >>=-elim_ok, arith,
}
use pulse_data_platform.Base.Dicts.{has, has-append, has-store}
use pulse_data_platform.Intelligence.{
  IntelligenceContext, InvestigationOpportunity, InvestigationTask, EvidenceRequirement,
  InvestigationPlan,
}
use pulse_data_platform.Sequencing.Graph.{
  same_place, Place, PlanTask, PlanIndexes, index_tasks, index_requirements, index_plans,
  with_requirement,
}
use pulse_data_platform.Sequencing.Keyed.{place-IsKey}

index_tasks_keeps :
    (plan : InvestigationPlan) (ts : List InvestigationTask) (seen : List String)
    (tasks result : List (String × PlanTask)) (k : String)
    → index_tasks plan ts seen tasks ≡ ok result
    → has str_eq k tasks ≡ true
    → has str_eq k result ≡ true
unfolding index_tasks
index_tasks_keeps plan [] seen tasks result k h old =
    let same : tasks ≡ result = cc in rw⁻¹ same old
index_tasks_keeps plan (t ∷ ts) seen tasks result k h old =
    let next = tasks ++ (t.task_id, (plan, t)) ∷ [] in
    let rest : index_tasks plan ts (t.task_id ∷ seen) next ≡ ok result = ground arith in
    index_tasks_keeps plan ts (t.task_id ∷ seen) next result k rest
      (rw (has-append str_eq k tasks ((t.task_id, (plan, t)) ∷ []), old) refl)

index_tasks-has :
    (plan : InvestigationPlan) (ts : List InvestigationTask) (seen : List String)
    (tasks result : List (String × PlanTask))
    → index_tasks plan ts seen tasks ≡ ok result
    → All (λ (t : InvestigationTask). has str_eq t.task_id result ≡ true) ts
unfolding index_tasks
index_tasks-has plan [] seen tasks result h = tt
index_tasks-has plan (t ∷ ts) seen tasks result h =
    let next = tasks ++ (t.task_id, (plan, t)) ∷ [] in
    let rest : index_tasks plan ts (t.task_id ∷ seen) next ≡ ok result = ground arith in
    let here : has str_eq t.task_id next ≡ true =
      rw (has-append str_eq t.task_id tasks ((t.task_id, (plan, t)) ∷ []), eq_refl t.task_id)
        (ground arith) in
    (
      index_tasks_keeps plan ts (t.task_id ∷ seen) next result t.task_id rest here,
      index_tasks-has plan ts (t.task_id ∷ seen) next result rest,
    )

index_requirements_keeps :
    (plan : InvestigationPlan) (rs : List EvidenceRequirement) (seen : List String)
    (d result : PlanIndexes) (k : Place)
    → index_requirements plan rs seen d ≡ ok result
    → has same_place k d.requirements ≡ true
    → has same_place k result.requirements ≡ true
unfolding index_requirements
index_requirements_keeps plan [] seen d result k h old = let same : d ≡ result = cc in rw⁻¹ same old
index_requirements_keeps plan (r ∷ rs) seen d result k h old =
    let next = with_requirement plan r d in
    let rest : index_requirements plan rs (r.requirement_id ∷ seen) next ≡ ok result =
      ground arith in
    index_requirements_keeps plan rs (r.requirement_id ∷ seen) next result k rest (
      rw (has-store same_place place-IsKey k (plan.plan_id, r.requirement_id) r d.requirements, old)
        (ground arith))

index_requirements-has :
    (plan : InvestigationPlan) (rs : List EvidenceRequirement) (seen : List String)
    (d result : PlanIndexes)
    → index_requirements plan rs seen d ≡ ok result
    → All
        (λ (r : EvidenceRequirement).
          has same_place (plan.plan_id, r.requirement_id) result.requirements ≡ true)
        rs
unfolding index_requirements
index_requirements-has plan [] seen d result h = tt
index_requirements-has plan (r ∷ rs) seen d result h =
    let next = with_requirement plan r d in
    let rest : index_requirements plan rs (r.requirement_id ∷ seen) next ≡ ok result =
      ground arith in
    let place : Place = (plan.plan_id, r.requirement_id) in
    let here : has same_place place next.requirements ≡ true =
      rw (has-store same_place place-IsKey place place r d.requirements, place-IsKey.self place)
        refl in
    (
      index_requirements_keeps plan rs (r.requirement_id ∷ seen) next result place rest here,
      index_requirements-has plan rs (r.requirement_id ∷ seen) next result rest,
    )

index_requirements_tasks :
    (plan : InvestigationPlan) (rs : List EvidenceRequirement) (seen : List String)
    (d result : PlanIndexes)
    → index_requirements plan rs seen d ≡ ok result
    → d.tasks ≡ result.tasks
unfolding index_requirements
index_requirements_tasks plan [] seen d result h = let same : d ≡ result = cc in rw same refl
index_requirements_tasks plan (r ∷ rs) seen d result h =
    let next = with_requirement plan r d in
    let rest : index_requirements plan rs (r.requirement_id ∷ seen) next ≡ ok result =
      ground arith in
    index_requirements_tasks plan rs (r.requirement_id ∷ seen) next result rest

-- The tasks and the requirements of the plan can be looked up, and its opportunity is known.
abbrev pub Holds :
    List (String × InvestigationOpportunity)
    → List (String × PlanTask)
    → List (Place × EvidenceRequirement)
    → InvestigationPlan
    → Type 0
Holds opportunities tasks requirements p =
    All (λ (t : InvestigationTask). has str_eq t.task_id tasks ≡ true) p.tasks
    × All
        (λ (r : EvidenceRequirement).
          has same_place (p.plan_id, r.requirement_id) requirements ≡ true)
        p.evidence_requirements
    × (has str_eq p.opportunity_id opportunities ≡ true)

module _ (c : IntelligenceContext) (opportunities : List (String × InvestigationOpportunity)) where
  index_plans_parts :
      {P : Type 0} (p : InvestigationPlan) (ps : List InvestigationPlan) (d result : PlanIndexes)
      → index_plans c opportunities (p ∷ ps) d ≡ ok result
      → ((tasks : List (String × PlanTask)) (d' : PlanIndexes)
          → has str_eq p.opportunity_id opportunities ≡ true
          → index_tasks p p.tasks [] d.tasks ≡ ok tasks
          → index_requirements p p.evidence_requirements [] (record d { tasks = tasks }) ≡ ok d'
          → index_plans c opportunities ps d' ≡ ok result
          → P)
      → P
  unfolding index_plans
  index_plans_parts p ps d result h goal =
      let known : has str_eq p.opportunity_id opportunities ≡ true = ground arith in
      let chain : (index_tasks p p.tasks [] d.tasks >>= λ tasks.
      index_requirements p p.evidence_requirements [] (record d { tasks = tasks }) >>= λ d'.
      index_plans c opportunities ps d')
          ≡ ok result =
        ground arith in
      >>=-elim_ok (index_tasks p p.tasks [] d.tasks) _ chain λ tasks e1 h1.
        >>=-elim_ok (index_requirements p p.evidence_requirements [] (record d { tasks = tasks })) _
          h1 λ d' e2 h2. goal tasks d' known e1 e2 h2

  index_plans_keeps_task :
      (ps : List InvestigationPlan) (d result : PlanIndexes) (k : String)
      → index_plans c opportunities ps d ≡ ok result
      → has str_eq k d.tasks ≡ true
      → has str_eq k result.tasks ≡ true
  unfolding index_plans
  index_plans_keeps_task [] d result k h old = let same : d ≡ result = cc in rw⁻¹ same old
  index_plans_keeps_task (p ∷ ps) d result k h old =
      index_plans_parts p ps d result h λ tasks d' known e1 e2 rest.
        let there = index_tasks_keeps p p.tasks [] d.tasks tasks k e1 old in
        let kept =
          index_requirements_tasks p p.evidence_requirements [] (record d { tasks = tasks }) d'
            e2 in
        index_plans_keeps_task ps d' result k rest (rw⁻¹ kept there)

  index_plans_keeps_requirement :
      (ps : List InvestigationPlan) (d result : PlanIndexes) (k : Place)
      → index_plans c opportunities ps d ≡ ok result
      → has same_place k d.requirements ≡ true
      → has same_place k result.requirements ≡ true
  unfolding index_plans
  index_plans_keeps_requirement [] d result k h old = let same : d ≡ result = cc in rw⁻¹ same old
  index_plans_keeps_requirement (p ∷ ps) d result k h old =
      index_plans_parts p ps d result h λ tasks d' known e1 e2 rest.
        index_plans_keeps_requirement ps d' result k rest (
          index_requirements_keeps p p.evidence_requirements [] (record d { tasks = tasks }) d' k e2
            old)

  pub index_plans-Holds :
      (ps : List InvestigationPlan) (d result : PlanIndexes)
      → index_plans c opportunities ps d ≡ ok result
      → All (Holds opportunities result.tasks result.requirements) ps
  index_plans-Holds [] d result h = tt
  index_plans-Holds (p ∷ ps) d result h =
      index_plans_parts p ps d result h λ tasks d' known e1 e2 rest.
        let kept =
          index_requirements_tasks p p.evidence_requirements [] (record d { tasks = tasks }) d'
            e2 in
        (
          (
            All-map (λ (t : InvestigationTask). has str_eq t.task_id tasks ≡ true)
                (λ (t : InvestigationTask). has str_eq t.task_id result.tasks ≡ true)
                (λ t there. index_plans_keeps_task ps d' result t.task_id rest (rw⁻¹ kept there))
                p.tasks (index_tasks-has p p.tasks [] d.tasks tasks e1),
            All-map
                (λ (r : EvidenceRequirement).
                  has same_place (p.plan_id, r.requirement_id) d'.requirements ≡ true)
                (λ (r : EvidenceRequirement).
                  has same_place (p.plan_id, r.requirement_id) result.requirements ≡ true)
                (λ r there.
                  index_plans_keeps_requirement ps d' result (p.plan_id, r.requirement_id) rest
                    there)
                p.evidence_requirements
                (index_requirements-has p p.evidence_requirements [] (record d { tasks = tasks }) d'
                  e2),
            known,
          ),
          index_plans-Holds ps d' result rest,
        )
