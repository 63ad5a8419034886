-- ===== src/Sequencing/Reference.antt =====
-- The leverage items of src/intelligence/sequencing.py list, for each requirement, the open decisions
-- that lack it.
use pulse_data_platform.Base.{
  ℕ, ◌≡◌, refl, String, Bool, true, false, ◌&&◌, ◌||◌, Option, none, some, List, [], ◌∷◌, ◌++◌, map,
  any, str_eq, eq_iff, ok, >>=-elim_ok, if◌then◌else◌, arith, Bool-cases, inl, inr, length, ltb,
  run_checks-eq-ok, strip,
}
use pulse_data_platform.Base.Dicts.{get, store}
use pulse_data_platform.Intelligence.{
  OpportunityPriority, InvestigationOpportunity, EvidenceRequirement, InvestigationPlan,
  DecisionReadinessAssessment,
}
use pulse_data_platform.Sequencing.Graph.{key_error, member, has_repeat, SourceIndexes}
use pulse_data_platform.Sequencing.Items.{EvidenceLeverageItem}
use pulse_data_platform.Sequencing.Leverage.{
  must, append_unique, Aggregate, Aggregates, LeverageState, current, add_requirement,
  add_requirements, add_assessments, priorities_of, min_priority, leverage_draft, leverage_items,
}
use pulse_data_platform.Sequencing.Affected.{add_requirement_parts, AreSound}
use pulse_data_platform.Sequencing.Linked.{clean_ids}
use pulse_data_platform.Sequencing.Cleaned.{map-strip, leverage_item_lem}
use pulse_data_platform.Sequencing.Contracts.{
  leverage_item, leverage_item_checks, clean_leverage_item,
}

-- The requirement has gathered the decision.
abbrev pub lists : String → String → Aggregates → Bool
lists requirement id d =
    any (λ (e : String × Aggregate). str_eq e.0 requirement && member id e.1.decisions) d

abbrev gathered : Option Aggregate → List String
gathered none = []
gathered (some g) = g.decisions

current_decisions :
    (r : EvidenceRequirement) (n : ℕ) (o : Option Aggregate)
    → (current r n o).decisions ≡ gathered o
current_decisions r n none = refl
current_decisions r n (some g) = refl

member-append_one :
    (d : String) (xs : List String) (x : String)
    → member d (xs ++ x ∷ []) ≡ (if member d xs then true else str_eq x d)
member-append_one d [] x = ground arith
member-append_one d (y ∷ xs) x = ground (arith, member-append_one d xs x)

member-append_unique :
    (d : String) (xs : List String) (x : String)
    → member d (append_unique xs x) ≡ (if member d xs then true else str_eq x d)
member-append_unique d xs x = elim (Bool-cases (member x xs)) [
  | inl old ↦ elim (Bool-cases (str_eq x d)) [
    | inl same ↦
        let here : x ≡ d = (eq_iff x d).0 same in
        let there : member d xs ≡ true = rw⁻¹ here old in rw (old, there) refl
    | inr other ↦ rw (old, other) (ground arith)
  ]
  | inr new ↦ rw new (member-append_one d xs x)
]

lists-store :
    (requirement d id x : String) (g : Aggregate) (s : Aggregates)
    → member d g.decisions ≡ (if member d (gathered (get str_eq id s)) then true else str_eq x d)
    → lists requirement d (store str_eq id g s)
      ≡ (lists requirement d s || str_eq id requirement && str_eq x d)
unfolding store get
lists-store requirement d id x g [] h = ground arith
lists-store requirement d id x g ((j, w) ∷ s) h = elim (Bool-cases (str_eq j id)) [
  | inl here ↦
      let same : j ≡ id = (eq_iff j id).0 here in
      let now : member d g.decisions ≡ (if member d w.decisions then true else str_eq x d) =
        rw here at h in
      rw here (rw (now, same) (ground arith))
  | inr there ↦
      let later : member d g.decisions
          ≡ (if member d (gathered (get str_eq id s)) then true else str_eq x d) =
        rw there at h in
      let rest = lists-store requirement d id x g s later in rw (there, rest) (ground arith)
]

module _ (indexes : SourceIndexes) (requirement d : String) where
  lists-add_requirement :
      (a : DecisionReadinessAssessment) (plan : InvestigationPlan) (o : InvestigationOpportunity)
      (id : String) (s s' : LeverageState)
      → add_requirement indexes a plan o id s ≡ ok s'
      → lists requirement d s'.0
        ≡ (lists requirement d s.0 || str_eq id requirement && str_eq a.decision_id d)
  lists-add_requirement a plan o id s s' h =
      add_requirement_parts indexes a plan o id s s' h λ r tasks found related same.
        let g = current r s.1 (get str_eq id s.0) in
        let was : g.decisions ≡ gathered (get str_eq id s.0) =
          current_decisions r s.1 (get str_eq id s.0) in
        rw⁻¹ same (
          lists-store requirement d id a.decision_id
            (record g {
              decisions = append_unique g.decisions a.decision_id;
              opportunities = append_unique g.opportunities o.opportunity_id;
              tasks = tasks;
            })
            s.0 (rw⁻¹ was (member-append_unique d g.decisions a.decision_id)))

  lists-add_requirements :
      (a : DecisionReadinessAssessment) (plan : InvestigationPlan) (o : InvestigationOpportunity)
      (ids : List String) (s s' : LeverageState)
      → add_requirements indexes a plan o ids s ≡ ok s'
      → lists requirement d s'.0
        ≡ (lists requirement d s.0 || member requirement ids && str_eq a.decision_id d)
  unfolding add_requirements
  lists-add_requirements a plan o [] s s' h = let same : s ≡ s' = cc in rw⁻¹ same (ground arith)
  lists-add_requirements a plan o (id ∷ ids) s s' h =
      >>=-elim_ok (add_requirement indexes a plan o id s) _ h λ s1 e1 h1. ground (
        arith,
        lists-add_requirement a plan o id s s1 e1,
        lists-add_requirements a plan o ids s1 s' h1,
      )

  pub lists-add_assessments :
      (rows : List DecisionReadinessAssessment) (s s' : LeverageState)
      → add_assessments indexes rows s ≡ ok s'
      → lists requirement d s'.0 ≡ (
          lists requirement d s.0
          || any
              (λ (a : DecisionReadinessAssessment).
                member requirement a.unresolved_requirement_ids && str_eq a.decision_id d)
              rows)
  unfolding add_assessments
  lists-add_assessments [] s s' h = let same : s ≡ s' = cc in rw⁻¹ same (ground arith)
  lists-add_assessments (a ∷ rows) s s' h =
      >>=-elim_ok (must key_error (get str_eq a.investigation_plan_id indexes.plans)) _ h
        λ plan e1 h1.
          >>=-elim_ok
            (must key_error (get str_eq a.originating_opportunity_id indexes.opportunities)) _ h1
            λ o e2 h2.
              >>=-elim_ok (add_requirements indexes a plan o a.unresolved_requirement_ids s) _ h2
                λ s1 e3 h3. ground (
                  arith,
                  lists-add_requirements a plan o a.unresolved_requirement_ids s s1 e3,
                  lists-add_assessments rows s1 s' h3,
                )

-- The item lists the decision for the requirement.
abbrev pub names : String → String → EvidenceLeverageItem → Bool
names requirement d i = str_eq i.requirement_id requirement && member d i.affected_decision_ids

abbrev pub names_entry : String → String → ℕ × EvidenceLeverageItem → Bool
names_entry requirement d e = names requirement d e.1

-- The decisions are counted, none twice.
abbrev pub IsTally : EvidenceLeverageItem → Type 0
IsTally i =
    (i.affected_decision_count ≡ length i.affected_decision_ids)
    × (has_repeat i.affected_decision_ids ≡ false)
    × (i.shared_across_decisions ≡ ltb 1 i.affected_decision_count)

length-map {ℓ κ} :
    {A : Type ℓ} {B : Type κ} (f : A → B) (xs : List A) → length (map f xs) ≡ length xs
length-map f [] = refl
length-map f (x ∷ xs) = omega (arith, length-map f xs)

pub any-map {ℓ κ} :
    {A : Type ℓ} {B : Type κ} (p : B → Bool) (f : A → B) (xs : List A)
    → any p (map f xs) ≡ any (λ x. p (f x)) xs
any-map p f [] = refl
any-map p f (x ∷ xs) = ground (arith, any-map p f xs)

pub leverage_item-IsTally :
    (indexes : SourceIndexes) (id : String) (g : Aggregate) (p : OpportunityPriority)
    (i : EvidenceLeverageItem)
    → leverage_item (leverage_draft indexes id g p) ≡ ok i
    → IsTally i
unfolding leverage_item leverage_item_checks
leverage_item-IsTally indexes id g p i h =
    let draft = leverage_draft indexes id g p in
    let (made, passed) =
      run_checks-eq-ok (leverage_item_checks draft) (clean_leverage_item draft) i h in
    let count : length g.decisions ≡ length (map strip g.decisions) =
      omega (arith, length-map strip g.decisions) in
    rw⁻¹ made (count, passed.1.1.1.1.1.1.1.0, refl)

module _ (indexes : SourceIndexes) (targeted : List String) (requirement d : String) where
  pub any-leverage_items :
      (s : Aggregates) (items : List (ℕ × EvidenceLeverageItem))
      → leverage_items indexes s ≡ ok items
      → AreSound indexes targeted s
      → any (names_entry requirement d) items ≡ lists requirement d s
  unfolding leverage_items
  any-leverage_items [] items h sound = let same : [] ≡ items = cc in rw⁻¹ same refl
  any-leverage_items ((id, g) ∷ s) items h sound =
      >>=-elim_ok (priorities_of indexes g.opportunities) _ h λ ps e1 h1.
        >>=-elim_ok (min_priority ps) _ h1 λ highest e2 h2.
          >>=-elim_ok (leverage_item (leverage_draft indexes id g highest)) _ h2 λ item e3 h3.
            >>=-elim_ok (leverage_items indexes s) _ h3 λ rest e4 h4.
              let same : (g.first_appearance, item) ∷ rest ≡ items = cc in
              let (named, clean, affects) = sound.0 in
              let made = leverage_item_lem (leverage_draft indexes id g highest) item e3 in
              let ids = map-strip g.decisions (clean_ids indexes targeted id g.decisions affects) in
              let row : names requirement d item ≡ (str_eq id requirement && member d g.decisions) =
                rw⁻¹ made (rw (ids, named, clean) refl) in
              rw⁻¹ same (rw (row, any-leverage_items s rest e4 sound.1) refl)
