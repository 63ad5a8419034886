-- ===== src/Sequencing/Graph.antt =====
-- `_unique_index` and the loop over the plans in `_validate_source_graph` of
-- src/intelligence/sequencing.py.
use Prim.Native.String.{◌++◌ as ◌<>◌}
use pulse_data_platform.Base.{
  ℕ, suc, String, Bool, true, false, not, ◌&&◌, ◌||◌, Option, none, some, List, [], ◌∷◌, ◌++◌, any,
  str_eq, ◌==◌, Outcome, ok, err, ◌>>=◌, if◌then◌else◌,
}
use pulse_data_platform.Base.Dicts.{get, has, store}
use pulse_data_platform.Intelligence.{
  EvidenceRequirementStatus, same_status, IntelligenceContext, InvestigationOpportunity,
  EvidenceRequirement, InvestigationTask, InvestigationPlan, EvidenceGap,
  DecisionReadinessAssessment,
}

-- What a call raises: a SequencingValidationError with its message, a KeyError, or the ValueError
-- of `min` on nothing.
pub data SequencingError : Type 0 where
  invalid : String → SequencingError
  key_error empty_min : SequencingError

abbrev pub member : String → List String → Bool
member x xs = any (λ y. str_eq y x) xs

-- `len(values) != len(set(values))`
abbrev pub has_repeat : List String → Bool
has_repeat [] = false
has_repeat (x ∷ xs) = member x xs || has_repeat xs

abbrev pub number_repeats : List ℕ → Bool
number_repeats [] = false
number_repeats (n ∷ ns) = any (λ m. m == n) ns || number_repeats ns

-- `set(ids) - known` is not empty.
abbrev pub has_unknown : List String → List String → Bool
has_unknown known ids = any (λ x. not (member x known)) ids

abbrev pub same_texts : List String → List String → Bool
same_texts [] [] = true
same_texts (x ∷ xs) (y ∷ ys) = str_eq x y && same_texts xs ys
same_texts _ _ = false

-- `numbers == list(range(first, first + len(numbers)))`
abbrev pub counts_up : ℕ → List ℕ → Bool
counts_up n [] = true
counts_up n (m ∷ ms) = m == n && counts_up (suc n) ms

-- `_unique_index`, from the entries it has made.
module _ {A : Type 0} (key : A → String) (label : String) where
  unfoldable pub index_from :
      List A → List (String × A) → Outcome SequencingError (List (String × A))
  index_from [] result = ok result
  index_from (x ∷ xs) result =
      let rest = index_from xs (result ++ (key x, x) ∷ []) in
      if has str_eq (key x) result
      then err (invalid ("Duplicate " <> (label <> (": " <> key x))))
      else rest

  unfoldable pub unique_index : List A → Outcome SequencingError (List (String × A))
  unfolding index_from
  unique_index xs = index_from xs []

abbrev pub PlanTask : Type 0
PlanTask = InvestigationPlan × InvestigationTask

-- The keys of `requirements`.
abbrev pub Place : Type 0
Place = String × String

abbrev pub same_place : Place → Place → Bool
same_place a b = str_eq a.0 b.0 && str_eq a.1 b.1

pub record SourceIndexes : Type 0 where
  pub opportunities : List (String × InvestigationOpportunity)
  pub plans : List (String × InvestigationPlan)
  pub tasks : List (String × PlanTask)
  pub requirements : List (Place × EvidenceRequirement)
  pub gaps : List (String × EvidenceGap)
  pub decisions : List (String × DecisionReadinessAssessment)

-- The dictionaries that the loop over the plans fills.
pub record PlanIndexes : Type 0 where
  pub tasks : List (String × PlanTask)
  pub requirements : List (Place × EvidenceRequirement)
  pub definitions : List (String × EvidenceRequirement)
  pub statuses : List (String × EvidenceRequirementStatus)

abbrev pub no_plans : PlanIndexes
no_plans = record { tasks = []; requirements = []; definitions = []; statuses = [] }

-- The loop over `plan.tasks`; `seen` are the task identities of the plan.
unfoldable pub index_tasks :
    InvestigationPlan
    → List InvestigationTask
    → List String
    → List (String × PlanTask)
    → Outcome SequencingError (List (String × PlanTask))
index_tasks plan [] seen tasks = ok tasks
index_tasks plan (t ∷ ts) seen tasks =
    let rest = index_tasks plan ts (t.task_id ∷ seen) (tasks ++ (t.task_id, (plan, t)) ∷ []) in
    if has str_eq t.task_id tasks || member t.task_id seen
    then err (invalid ("Duplicate task ID: " <> t.task_id))
    else if not (str_eq t.opportunity_id plan.opportunity_id)
    then err (invalid "Task belongs to an unrelated plan")
    else rest

-- `(name, description, source_scope)`
abbrev same_definition : EvidenceRequirement → EvidenceRequirement → Bool
same_definition a b =
    str_eq a.name b.name
    && str_eq a.description b.description
    && str_eq a.source_scope b.source_scope

-- The entry that `setdefault` returns differs.
abbrev conflicts {ℓ} : {V : Type ℓ} → (V → V → Bool) → V → Option V → Bool
conflicts same v none = false
conflicts same v (some w) = not (same w v)

abbrev pub set_default {ℓ} : {V : Type ℓ} → String → V → List (String × V) → List (String × V)
set_default k v d = if has str_eq k d then d else d ++ (k, v) ∷ []

abbrev pub with_requirement : InvestigationPlan → EvidenceRequirement → PlanIndexes → PlanIndexes
with_requirement plan r d = record d {
  requirements = store same_place (plan.plan_id, r.requirement_id) r d.requirements;
  definitions = set_default r.requirement_id r d.definitions;
  statuses = set_default r.requirement_id r.status d.statuses;
}

-- The loop over `plan.evidence_requirements`; `seen` are the requirement identities of the plan.
unfoldable pub index_requirements :
    InvestigationPlan
    → List EvidenceRequirement
    → List String
    → PlanIndexes
    → Outcome SequencingError PlanIndexes
index_requirements plan [] seen d = ok d
index_requirements plan (r ∷ rs) seen d =
    let rest = index_requirements plan rs (r.requirement_id ∷ seen) (with_requirement plan r d) in
    if member r.requirement_id seen
    then err (invalid ("Duplicate requirement in plan: " <> r.requirement_id))
    else if conflicts same_definition r (get str_eq r.requirement_id d.definitions)
    then err (invalid ("Conflicting semantic definitions for requirement ID " <> r.requirement_id))
    else if conflicts same_status r.status (get str_eq r.requirement_id d.statuses)
    then err (invalid ("Conflicting current statuses for requirement ID " <> r.requirement_id))
    else rest

-- The loop over the plans.
unfoldable pub index_plans :
    IntelligenceContext
    → List (String × InvestigationOpportunity)
    → List InvestigationPlan
    → PlanIndexes
    → Outcome SequencingError PlanIndexes
index_plans c opportunities [] d = ok d
index_plans c opportunities (p ∷ ps) d =
    if not (str_eq p.business_id c.business_id)
      || not (p.as_of_date == c.as_of_date)
      || not (has str_eq p.opportunity_id opportunities)
    then err (invalid "Investigation plan references an unknown or cross-business opportunity")
    else index_tasks p p.tasks [] d.tasks >>= λ tasks.
        index_requirements p p.evidence_requirements [] (record d { tasks = tasks }) >>= λ d'.
        index_plans c opportunities ps d'
