-- ===== src/Decisions/Review.antt =====
-- What an assessment of src/intelligence/decisions.py rests on that is ready for review, and what one
-- that is not asks for.
use pulse_data_platform.Base.{
  ℕ, ◌≡◌, refl, String, true, false, not, ◌&&◌, List, [], ◌∷◌, map, any, any-false, any-select,
  select, All, str_eq, ok, Bool-cases, inl, inr, arith, strip, subst, ◌∙◌,
}
use pulse_data_platform.Intelligence.{
  DecisionReadiness, is_for_review, is_ready_now, IntelligenceContext, InvestigationOpportunity,
  EvidenceRequirement, InvestigationTask, InvestigationPlan, DecisionReadinessAssessment,
}
use pulse_data_platform.Sequencing.Validation.{is_nonempty}
use pulse_data_platform.Decisions.Frames.{DecisionFrameSpec}
use pulse_data_platform.Decisions.Components.{bar_readiness}
use pulse_data_platform.Decisions.Evidence.{
  is_relevant, is_available, prevents, blocks, task_ids, addresses, next_tasks, unresolved_of,
}
use pulse_data_platform.Decisions.Assessing.{frame_assessment}
use pulse_data_platform.Decisions.Required.{met_of_unresolved}
use pulse_data_platform.Decisions.Bar.{
  relevant_of, frame_assessment_parts, bar_readiness-Bar, bar_readiness_resolved,
}

abbrev pub HasAvailable : InvestigationPlan → String → Type 0
HasAvailable plan id =
    any (λ (r : EvidenceRequirement). str_eq r.requirement_id id && is_available r.status)
      plan.evidence_requirements
    ≡ true

empty_of_unfilled : (xs : List String) → is_nonempty xs ≡ false → xs ≡ []
empty_of_unfilled [] h = refl
empty_of_unfilled (x ∷ xs) h = absurd (cc)

filled-map-strip : (xs : List String) → is_nonempty (map strip xs) ≡ is_nonempty xs
filled-map-strip [] = refl
filled-map-strip (x ∷ xs) = refl

addresses-none : (ts : List InvestigationTask) → select (addresses []) ts ≡ []
addresses-none [] = refl
addresses-none (t ∷ ts) = rw (any-false t.required_requirement_ids, addresses-none ts) refl

next_tasks-filled :
    (d : DecisionReadiness) (unresolved : List String) (relevant : List InvestigationTask)
    → (is_for_review d && is_nonempty unresolved) ≡ false
    → is_nonempty (task_ids relevant) ≡ true
    → is_nonempty (next_tasks d unresolved relevant) ≡ not (is_for_review d)
next_tasks-filled d unresolved relevant h filled = elim (Bool-cases (is_for_review d)) [
  | inl e ↦
      let bare : unresolved ≡ [] = empty_of_unfilled unresolved (ground arith) in
      rw bare (rw (e, addresses-none relevant) refl)
  | inr e ↦ ground (arith, e, filled)
]

module _ (lower : String → String) (context : IntelligenceContext) (o : InvestigationOpportunity)
    (plan : InvestigationPlan) (frame : DecisionFrameSpec) (order : ℕ) where
  -- An assessment that is ready for human review rests on evidence: each requirement of its frame is
  -- one of the plan that is available, so that none is unresolved; the opportunity has no
  -- counter-evidence and no blocking evidence unless the frame allows it; and a task of the frame
  -- can begin if the frame requires one.
  pub frame_assessment_reviewable :
      (a : DecisionReadinessAssessment)
      → frame_assessment lower context o plan frame order ≡ ok a
      → is_for_review a.readiness ≡ true
      → All (HasAvailable plan) frame.required_requirement_ids
        × (a.unresolved_requirement_ids ≡ [])
        × ((is_nonempty o.counter_evidence_refs && prevents frame.counter_evidence_behavior)
            ≡ false)
        × ((is_nonempty o.blocking_evidence_refs && blocks frame.blocker_behavior) ≡ false)
        × ((frame.require_ready_task
              && not (
                  any
                    (λ (t : InvestigationTask). is_ready_now t.readiness && is_relevant frame t)
                    plan.tasks))
            ≡ false)
  frame_assessment_reviewable a h ready =
      frame_assessment_parts lower context o plan frame order a h λ rs id own names all made filled.
        let (free, met, counter, blocker, tasks) =
          bar_readiness-Bar context o frame rs (relevant_of plan frame) (rw (← made) at ready) in
        let bare : unresolved_of rs ≡ [] = empty_of_unfilled (unresolved_of rs) met in
        (
          subst (All (HasAvailable plan)) names
              (met_of_unresolved plan.evidence_requirements rs all met),
          rw⁻¹ made (rw bare refl),
          counter,
          blocker,
          rw⁻¹
              (any-select (λ (t : InvestigationTask). is_ready_now t.readiness) (is_relevant frame)
                plan.tasks)
              tasks,
        )

  -- An assessment names tasks that could gather the evidence exactly if it is not ready for review.
  pub frame_assessment-next :
      (a : DecisionReadinessAssessment)
      → frame_assessment lower context o plan frame order ≡ ok a
      → is_nonempty a.next_evidence_task_ids ≡ not (is_for_review a.readiness)
  frame_assessment-next a h =
      frame_assessment_parts lower context o plan frame order a h λ rs id own names all made filled.
        rw⁻¹ made (
          filled-map-strip _
          ∙ next_tasks-filled (bar_readiness context o frame rs (relevant_of plan frame))
              (unresolved_of rs) (relevant_of plan frame)
              (bar_readiness_resolved context o frame rs (relevant_of plan frame)) filled)
