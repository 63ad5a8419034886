-- ===== src/Sequencing/Linked.antt =====
-- The links of a derived portfolio of src/intelligence/sequencing.py pass the checks of
-- `validate_investigation_sequencing_portfolio`.
use pulse_data_platform.Base.{
  ℕ, ◌≡◌, refl, String, true, false, some, List, [], ◌∷◌, All, All-map, any, str_eq, eq_iff, ok,
  >>=-elim_ok, Bool-cases, inl, inr, strip,
}
use pulse_data_platform.Base.Dicts.{get}
use pulse_data_platform.Intelligence.{
  DecisionReadiness, ready_for_human_review, needs_more_evidence, boundary_blocked, needs_evidence,
  is_at_boundary, DecisionReadinessAssessment,
}
use pulse_data_platform.Sequencing.Graph.{member, SourceIndexes}
use pulse_data_platform.Sequencing.Items.{EvidenceLeverageItem}
use pulse_data_platform.Sequencing.Contracts.{leverage_item}
use pulse_data_platform.Sequencing.Cleaned.{map-strip, leverage_item_lem}
use pulse_data_platform.Sequencing.Leverage.{
  Aggregates, priorities_of, min_priority, leverage_draft, leverage_items,
}
use pulse_data_platform.Sequencing.Portfolio.{decision_ids}
use pulse_data_platform.Sequencing.Affected.{Affects, AreSound}
use pulse_data_platform.Sequencing.Building.{check_leverage_links, check_leverage}

open_not_at_boundary :
    (r : DecisionReadiness) → needs_evidence r ≡ true → is_at_boundary r ≡ true → ⊥
open_not_at_boundary ready_for_human_review h k = cc
open_not_at_boundary needs_more_evidence h k = cc
open_not_at_boundary boundary_blocked h k = cc

module _ (indexes : SourceIndexes) (targeted : List String) where
  abbrev pub IsLinked : EvidenceLeverageItem → Type 0
  IsLinked i = All (Affects indexes targeted i.requirement_id) i.affected_decision_ids

  pub clean_ids :
      (requirement : String) (ids : List String)
      → All (Affects indexes targeted requirement) ids
      → All (λ x. strip x ≡ x) ids
  clean_ids requirement ids h =
      All-map (Affects indexes targeted requirement) (λ x. strip x ≡ x) (λ x a. a.5) ids h

  pub leverage_items-IsLinked :
      (d : Aggregates) (items : List (ℕ × EvidenceLeverageItem))
      → leverage_items indexes d ≡ ok items
      → AreSound indexes targeted d
      → All (λ (e : ℕ × EvidenceLeverageItem). IsLinked e.1) items
  unfolding leverage_items
  leverage_items-IsLinked [] items h sound = let same : [] ≡ items = cc in rw⁻¹ same tt
  leverage_items-IsLinked ((id, g) ∷ d) items h sound =
      >>=-elim_ok (priorities_of indexes g.opportunities) _ h λ ps e1 h1.
        >>=-elim_ok (min_priority ps) _ h1 λ highest e2 h2.
          >>=-elim_ok (leverage_item (leverage_draft indexes id g highest)) _ h2 λ item e3 h3.
            >>=-elim_ok (leverage_items indexes d) _ h3 λ rest e4 h4.
              let same : (g.first_appearance, item) ∷ rest ≡ items = cc in
              let (named, clean, affects) = sound.0 in
              let made = leverage_item_lem (leverage_draft indexes id g highest) item e3 in
              let ids = map-strip g.decisions (clean_ids id g.decisions affects) in
              let linked : IsLinked item = rw⁻¹ made (rw (ids, named, clean) affects) in
              rw⁻¹ same (linked, leverage_items-IsLinked d rest e4 sound.1)

  module _ (boundary : List DecisionReadinessAssessment)
      (at_boundary : All
        (λ (b : DecisionReadinessAssessment).
          (get str_eq b.decision_id indexes.decisions ≡ some b)
          × (is_at_boundary b.readiness ≡ true))
        boundary) where
    not_at_boundary :
        (requirement id : String) (rows : List DecisionReadinessAssessment)
        → Affects indexes targeted requirement id
        → All
            (λ (b : DecisionReadinessAssessment).
              (get str_eq b.decision_id indexes.decisions ≡ some b)
              × (is_at_boundary b.readiness ≡ true))
            rows
        → member id (decision_ids rows) ≡ false
    not_at_boundary requirement id [] affects h = refl
    not_at_boundary requirement id (b ∷ rows) affects h =
        elim (Bool-cases (str_eq b.decision_id id)) [
          | inl e ↦
              let here : b.decision_id ≡ id = (eq_iff b.decision_id id).0 e in
              let found : get str_eq id indexes.decisions ≡ some b = rw⁻¹ here h.0.0 in
              let (a, open_one, needs, _, _, _) = affects in
              let one : a ≡ b = cc in
              absurd (open_not_at_boundary b.readiness (rw⁻¹ one needs) h.0.1)
          | inr e ↦ rw e (not_at_boundary requirement id rows affects h.1)
        ]

    no_boundary :
        (requirement : String) (ids : List String)
        → All (Affects indexes targeted requirement) ids
        → any (λ id. member id (decision_ids boundary)) ids ≡ false
    no_boundary requirement [] h = refl
    no_boundary requirement (id ∷ ids) h =
        rw (not_at_boundary requirement id boundary h.0 at_boundary)
          (no_boundary requirement ids h.1)

    check_leverage_links_pass :
        (requirement : String) (ids : List String)
        → All (Affects indexes targeted requirement) ids
        → check_leverage_links indexes targeted (decision_ids boundary) requirement ids ≡ ok tt
    unfolding check_leverage_links
    check_leverage_links_pass requirement [] h = refl
    check_leverage_links_pass requirement (id ∷ ids) h =
        let (a, found, needs, inside, lacks, _) = h.0 in
        rw (found, needs, inside, lacks) (check_leverage_links_pass requirement ids h.1)

    pub check_leverage_pass :
        (items : List EvidenceLeverageItem)
        → All IsLinked items
        → check_leverage indexes targeted (decision_ids boundary) items ≡ ok tt
    unfolding check_leverage
    check_leverage_pass [] h = refl
    check_leverage_pass (i ∷ items) h =
        rw
          (
            check_leverage_links_pass i.requirement_id i.affected_decision_ids h.0,
            no_boundary i.requirement_id i.affected_decision_ids h.0,
          )
          (check_leverage_pass items h.1)
