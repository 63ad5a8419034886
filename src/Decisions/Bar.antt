-- ===== src/Decisions/Bar.antt =====
-- The bar of a frame in src/intelligence/decisions.py: what an assessment that is ready for review
-- rests on.
use pulse_data_platform.Base.{
  ℕ, ◌≡◌, refl, sym, subst, String, Bool, true, false, not, ◌&&◌, ◌||◌, List, [], map, select, All,
  eq_iff, ok, checked, >>=-elim_ok, run_checks-eq-ok, Bool-cases, inl, inr, arith,
}
use pulse_data_platform.Intelligence.{
  is_for_review, IntelligenceContext, InvestigationOpportunity, EvidenceRequirement,
  InvestigationTask, InvestigationPlan, DecisionReadinessAssessment,
}
use pulse_data_platform.Sequencing.Validation.{is_nonempty}
use pulse_data_platform.Decisions.Frames.{DecisionFrameSpec}
use pulse_data_platform.Decisions.Components.{
  Components, by_id, frame_checks, support_checks, counter_blocks, blocker_blocks, has_ready_task,
  bar_readiness, parts, components,
}
use pulse_data_platform.Decisions.Evidence.{
  is_relevant, task_checks, task_ids, unresolved_of, readiness_of, is_boundary_blocked,
  relevant_tasks, requirements_of,
}
use pulse_data_platform.Decisions.Contracts.{
  clean_assessment, assessment_rules, decision_assessment,
}
use pulse_data_platform.Decisions.Assessing.{
  type_value, stable_decision_id, assessment_draft, frame_assessment, plan_checks,
}
use pulse_data_platform.Decisions.Required.{
  IsIn, requirements_by_id_start, requirements_of-AreIn, assessment_rules-relevant,
}

abbrev pub relevant_of : InvestigationPlan → DecisionFrameSpec → List InvestigationTask
relevant_of plan frame = select (is_relevant frame) plan.tasks

module _ (lower : String → String) (context : IntelligenceContext) (o : InvestigationOpportunity)
    (plan : InvestigationPlan) (frame : DecisionFrameSpec) (order : ℕ) where
  -- What an assessment that is returned was made of.
  pub frame_assessment_parts {ν} :
      {G : Type ν} (a : DecisionReadinessAssessment)
      → frame_assessment lower context o plan frame order ≡ ok a
      → ((rs : List EvidenceRequirement) (id : String)
          → plan.opportunity_id ≡ o.opportunity_id
          → map (λ (r : EvidenceRequirement). r.requirement_id) rs ≡ frame.required_requirement_ids
          → All (λ (r : EvidenceRequirement). IsIn plan.evidence_requirements r.requirement_id r) rs
          → clean_assessment (
              assessment_draft context o plan frame order id
                (parts context o frame rs (relevant_of plan frame)))
            ≡ a
          → is_nonempty (task_ids (relevant_of plan frame)) ≡ true
          → G)
      → G
  unfolding frame_assessment components relevant_tasks decision_assessment
  frame_assessment_parts a h goal =
      >>=-elim_ok (checked (plan_checks context o plan)) _ h λ u1 e1 h1.
        >>=-elim_ok (components context o plan frame) _ h1 λ p e2 h2.
          >>=-elim_ok
            (stable_decision_id lower (type_value o.opportunity_type) o.scope_name frame.frame_id) _
            h2
            λ id e3 h3. >>=-elim_ok (checked (frame_checks o plan frame)) _ e2 λ u4 e4 h4.
              >>=-elim_ok (requirements_of (by_id plan) frame.required_requirement_ids) _ h4
                λ rs e5 h5. >>=-elim_ok (relevant_tasks plan frame) _ h5 λ relevant e6 h6.
                  >>=-elim_ok (checked (task_checks plan frame)) _ e6 λ u7 e7 h7.
                    >>=-elim_ok (checked (support_checks o rs)) _ h6 λ u8 e8 h8.
                      let same : relevant_of plan frame ≡ relevant =
                        (run_checks-eq-ok [] (relevant_of plan frame) relevant h7).0 in
                      let made : parts context o frame rs relevant ≡ p =
                        (run_checks-eq-ok [] (parts context o frame rs relevant) p h8).0 in
                      let (names, all) =
                        requirements_of-AreIn plan.evidence_requirements (by_id plan)
                          frame.required_requirement_ids rs
                          (requirements_by_id_start plan.evidence_requirements) e5 in
                      let own : plan.opportunity_id ≡ o.opportunity_id =
                        (eq_iff plan.opportunity_id o.opportunity_id).0 (ground arith) in
                      let (result, passed) =
                        run_checks-eq-ok
                          (assessment_rules (assessment_draft context o plan frame order id p)) _ a
                          h3 in
                      let drawn : clean_assessment (
                            assessment_draft context o plan frame order id
                              (parts context o frame rs relevant))
                          ≡ a =
                        subst
                          (λ q.
                            clean_assessment (assessment_draft context o plan frame order id q) ≡ a)
                          (sym made) result in
                      goal rs id own names all
                        (subst
                          (λ ts.
                            clean_assessment (
                              assessment_draft context o plan frame order id
                                (parts context o frame rs ts))
                            ≡ a)
                          (sym same) drawn)
                        (subst (λ ts. is_nonempty (task_ids ts) ≡ true) (sym same)
                          (subst (λ (q : Components). is_nonempty q.relevant_task_ids ≡ true)
                            (sym made)
                            (assessment_rules-relevant
                              (assessment_draft context o plan frame order id p) passed)))

-- READY_FOR_HUMAN_REVIEW, of the parts.
module _ (context : IntelligenceContext) (o : InvestigationOpportunity) (frame : DecisionFrameSpec)
    (rs : List EvidenceRequirement) (relevant : List InvestigationTask) where
  abbrev pub Bar : Type 0
  Bar =
      (is_boundary_blocked context frame rs ≡ false)
      × (is_nonempty (unresolved_of rs) ≡ false)
      × (counter_blocks context o frame rs relevant ≡ false)
      × (blocker_blocks context o frame rs relevant ≡ false)
      × ((frame.require_ready_task && not (has_ready_task context o frame rs relevant)) ≡ false)

  pub bar_readiness-Bar : is_for_review (bar_readiness context o frame rs relevant) ≡ true → Bar
  bar_readiness-Bar h =
      by_tests (is_boundary_blocked context frame rs) (is_nonempty (unresolved_of rs))
        (counter_blocks context o frame rs relevant) (blocker_blocks context o frame rs relevant)
        (frame.require_ready_task && not (has_ready_task context o frame rs relevant)) h
    where
      by_tests :
          (b u c k t : Bool)
          → is_for_review (readiness_of b (u || c || k || t)) ≡ true
          → (b ≡ false) × (u ≡ false) × (c ≡ false) × (k ≡ false) × (t ≡ false)
      by_tests true u c k t h = absurd (cc)
      by_tests false true c k t h = absurd (cc)
      by_tests false false true k t h = absurd (cc)
      by_tests false false false true t h = absurd (cc)
      by_tests false false false false true h = absurd (cc)
      by_tests false false false false false h = (refl, refl, refl, refl, refl)

  pub bar_readiness_resolved :
      (is_for_review (bar_readiness context o frame rs relevant) && is_nonempty (unresolved_of rs))
      ≡ false
  bar_readiness_resolved =
      elim (Bool-cases (is_for_review (bar_readiness context o frame rs relevant))) [
        | inl e ↦ rw (e, (bar_readiness-Bar e).1) refl
        | inr e ↦ rw e refl
      ]
