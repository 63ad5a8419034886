-- ===== src/Decisions/Handed.antt =====
-- What src/intelligence/decisions.py hands to src/intelligence/sequencing.py: an assessment of a
-- frame passes the checks that `_validate_source_graph` makes of it.
use pulse_data_platform.Base.{
  ℕ, ◌≡◌, refl, sym, String, Bool, true, false, not, ◌&&◌, List, map, select, All, str_eq, eq_refl,
  ok, checked, arith, strip, subst, if◌then◌else◌, some,
}
use pulse_data_platform.Base.Dicts.{get}
use pulse_data_platform.Sequencing.Graph.{member, has_unknown}
use pulse_data_platform.Sequencing.Cleaned.{map-strip}
use pulse_data_platform.Sequencing.Validation.{assessment_checks, is_nonempty}
use pulse_data_platform.Intelligence.{
  DecisionReadiness, is_for_review, IntelligenceContext, InvestigationOpportunity,
  EvidenceRequirement, InvestigationTask, InvestigationPlan, DecisionReadinessAssessment,
}
use pulse_data_platform.Decisions.Frames.{DecisionFrameSpec}
use pulse_data_platform.Decisions.Components.{bar_readiness, parts}
use pulse_data_platform.Decisions.Evidence.{
  is_relevant, is_unmet, task_ids, addresses, next_tasks, unresolved_of,
}
use pulse_data_platform.Decisions.Assessing.{assessment_draft, frame_assessment}
use pulse_data_platform.Decisions.Contracts.{clean_assessment}
use pulse_data_platform.Decisions.Required.{
  required-known, select_named, has_unknown_of_members, members_self, All-mapped,
}
use pulse_data_platform.Decisions.Bar.{relevant_of, frame_assessment_parts, bar_readiness_resolved}

-- The identities are as the constructors leave them, stripped.
pub record AreStripped (context : IntelligenceContext) (o : InvestigationOpportunity)
    (plan : InvestigationPlan) (frame : DecisionFrameSpec) : Type 0 where
  pub business : strip context.business_id ≡ context.business_id
  pub opportunity : strip o.opportunity_id ≡ o.opportunity_id
  pub plan_id : strip plan.plan_id ≡ plan.plan_id
  pub tasks : All (λ id. strip id ≡ id) (task_ids plan.tasks)
  pub requirements : All (λ id. strip id ≡ id) frame.required_requirement_ids

abbrev IsStripped : String → Type 0
IsStripped id = strip id ≡ id

abbrev IsAmong : List String → String → Type 0
IsAmong known id = member id known ≡ true

has_unknown_stripped :
    (known ids : List String)
    → All IsStripped ids
    → All (IsAmong known) ids
    → has_unknown known (map strip ids) ≡ false
has_unknown_stripped known ids clean all =
    rw (map-strip ids clean) (has_unknown_of_members known ids all)

abbrev name_of : EvidenceRequirement → String
name_of r = r.requirement_id

abbrev requirement_names : List EvidenceRequirement → List String
requirement_names = map (λ (r : EvidenceRequirement). r.requirement_id)

abbrev task_name : InvestigationTask → String
task_name t = t.task_id

-- A test of all names that selected tasks pass, the next ones pass.
next_tasks_named {κ} :
    (Q : String → Type κ) (d : DecisionReadiness) (unresolved : List String)
    (relevant : List InvestigationTask)
    → All Q (task_ids relevant)
    → All Q (next_tasks d unresolved relevant)
next_tasks_named Q d unresolved relevant h =
    by_test
      (not (is_for_review d)
        && not (is_nonempty (task_ids (select (addresses unresolved) relevant))))
      (task_ids relevant) (task_ids (select (addresses unresolved) relevant)) h
      (select_named task_name Q (addresses unresolved) relevant h)
  where
    by_test : (b : Bool) (xs ys : List String) → All Q xs → All Q ys → All Q (if b then xs else ys)
    by_test true xs ys h k = h
    by_test false xs ys h k = k

module _ (context : IntelligenceContext) (o : InvestigationOpportunity) (plan : InvestigationPlan)
    (opportunities : List (String × InvestigationOpportunity))
    (plans : List (String × InvestigationPlan)) where
  assessment_checks_passed :
      (a : DecisionReadinessAssessment)
      → get str_eq o.opportunity_id opportunities ≡ some o
      → get str_eq plan.plan_id plans ≡ some plan
      → plan.opportunity_id ≡ o.opportunity_id
      → (a.business_id ≡ context.business_id) × (a.as_of_date ≡ context.as_of_date)
      → (a.originating_opportunity_id ≡ o.opportunity_id) × (a.investigation_plan_id ≡ plan.plan_id)
      → (has_unknown (requirement_names plan.evidence_requirements) a.required_requirement_ids
          ≡ false)
        × (has_unknown (requirement_names plan.evidence_requirements) a.unresolved_requirement_ids
            ≡ false)
      → (has_unknown (task_ids plan.tasks) a.relevant_investigation_task_ids ≡ false)
        × (has_unknown (task_ids plan.tasks) a.next_evidence_task_ids ≡ false)
      → (is_for_review a.readiness && is_nonempty a.unresolved_requirement_ids) ≡ false
      → checked (assessment_checks context opportunities plans a) ≡ ok tt
  assessment_checks_passed a found placed own (b, d) (e, f) (r, u) (t, n) ready =
      rw (b, d, e, f)
        (rw (eq_refl context.business_id, found, placed)
          (rw (own, r, u, t, n) (rw (eq_refl o.opportunity_id, ready) (ground arith))))

module _ (lower : String → String) (context : IntelligenceContext) (o : InvestigationOpportunity)
    (plan : InvestigationPlan) (frame : DecisionFrameSpec) (order : ℕ)
    (opportunities : List (String × InvestigationOpportunity))
    (plans : List (String × InvestigationPlan)) where
  -- Where the sequencing has indexed the opportunity and the plan under their stripped identities,
  -- and tasks and required requirements have stripped identities, the assessment of a frame passes
  -- every check that the sequencing makes of it: business, date, opportunity and plan are right, its
  -- requirements and tasks are those of the plan, and it is not ready with a requirement unresolved.
  pub frame_assessment_handed :
      (a : DecisionReadinessAssessment)
      → AreStripped context o plan frame
      → get str_eq o.opportunity_id opportunities ≡ some o
      → get str_eq plan.plan_id plans ≡ some plan
      → frame_assessment lower context o plan frame order ≡ ok a
      → checked (assessment_checks context opportunities plans a) ≡ ok tt
  frame_assessment_handed a clean found placed h =
      frame_assessment_parts lower context o plan frame order a h λ rs id own names all made filled.
        let known =
          required-known plan.evidence_requirements rs frame.required_requirement_ids names all in
        let d = bar_readiness context o frame rs (relevant_of plan frame) in
        let task_known =
          All-mapped task_name (IsAmong (task_ids plan.tasks)) plan.tasks
            (members_self task_name plan.tasks) in
        let relevant_known =
          select_named task_name (IsAmong (task_ids plan.tasks)) (is_relevant frame) plan.tasks
            task_known in
        let relevant_stripped =
          select_named task_name IsStripped (is_relevant frame) plan.tasks clean.tasks in
        let open_stripped =
          select_named name_of IsStripped is_unmet rs
            (subst (All IsStripped) (sym names) clean.requirements) in
        let open_known =
          select_named name_of (IsAmong (requirement_names plan.evidence_requirements)) is_unmet rs
            (subst (All (IsAmong (requirement_names plan.evidence_requirements))) (sym names)
              known) in
        rw⁻¹ made (
          assessment_checks_passed context o plan opportunities plans
            (clean_assessment (
              assessment_draft context o plan frame order id
                (parts context o frame rs (relevant_of plan frame))))
            found placed own (clean.business, refl) (clean.opportunity, clean.plan_id)
            (
              has_unknown_stripped _ frame.required_requirement_ids clean.requirements known,
              has_unknown_stripped _ (unresolved_of rs) open_stripped open_known,
            )
            (
              has_unknown_stripped _ (task_ids (relevant_of plan frame)) relevant_stripped
                  relevant_known,
              has_unknown_stripped _ (next_tasks d (unresolved_of rs) (relevant_of plan frame))
                  (next_tasks_named IsStripped d (unresolved_of rs) (relevant_of plan frame)
                    relevant_stripped)
                  (next_tasks_named (IsAmong (task_ids plan.tasks)) d (unresolved_of rs)
                    (relevant_of plan frame) relevant_known),
            )
            (rw (map-strip (unresolved_of rs) open_stripped)
              (bar_readiness_resolved context o frame rs (relevant_of plan frame))))
