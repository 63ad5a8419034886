-- ===== src/Sequencing/Items.antt =====
-- The records of src/intelligence/sequencing_models.py, its patterns of identities, and the tests
-- that its constructors share.
use Prim.Native.String.{◌++◌ as ◌<>◌}
use pulse_data_platform.Base.{
  ℕ, String, Bool, true, false, not, ◌&&◌, ◌||◌, Option, none, some, List, [], ◌∷◌, map, any,
  length, ◌==◌, leb, strip, is_blank,
}
use pulse_data_platform.Base.Regex.{Regex, lit, seq, one, many, some_of, full_match}
use pulse_data_platform.Intelligence.{
  OpportunityPriority, InvestigationTaskKind, InvestigationReadiness, EvidenceRequirementStatus,
}
use pulse_data_platform.Sequencing.Graph.{SequencingError, invalid, has_repeat}

pub data SequencingPortfolioState : Type 0 where
  ready_task_available evidence_gap_first boundary_only : SequencingPortfolioState
  no_open_readiness_gaps : SequencingPortfolioState

abbrev pub is_lower_or_digit : ℕ → Bool
is_lower_or_digit c = leb 97 c && leb c 122 || leb 48 c && leb c 57

-- `[a-z0-9_-]` and `[a-z0-9_:-]`
abbrev pub is_slug : ℕ → Bool
is_slug c = is_lower_or_digit c || c == 95 || c == 45

abbrev pub is_slug_or_colon : ℕ → Bool
is_slug_or_colon c = is_slug c || c == 58

-- `[a-z0-9][a-z0-9_-]*`
abbrev pub slug : Regex
slug = seq (one is_lower_or_digit) (many (one is_slug))

abbrev pub requirement_id_pattern : Regex
requirement_id_pattern =
    seq (lit "requirement:") (seq (one is_lower_or_digit) (many (one is_slug_or_colon)))

abbrev pub decision_id_pattern : Regex
decision_id_pattern =
    seq (lit "decision-readiness:") (seq slug (seq (lit ":") (seq slug (seq (lit ":") slug))))

abbrev pub opportunity_id_pattern : Regex
opportunity_id_pattern =
    seq (lit "opportunity:") (seq (some_of (one is_slug)) (seq (lit ":") (some_of (one is_slug))))

abbrev pub task_id_pattern : Regex
task_id_pattern =
    seq (lit "investigation-task:") (seq slug (seq (lit ":") (seq slug (seq (lit ":") slug))))

abbrev pub plan_id_pattern : Regex
plan_id_pattern = seq (lit "investigation-plan:") (seq slug (seq (lit ":") slug))

abbrev pub gap_id_pattern : Regex
gap_id_pattern = seq (lit "evidence-gap:") slug

-- These patterns use no `\w` and no `\d`.
abbrev pub matches : Regex → String → Bool
matches = full_match (λ c. false) (λ c. false)

abbrev pub unmatched : Regex → List String → Bool
unmatched r ids = any (λ x. not (matches r x)) ids

abbrev pub text_check : String → String → Bool × SequencingError
text_check field value = (is_blank value, invalid (field <> " must be non-empty text"))

-- `_id_tuple`, whose values have been stripped already in `ids`; `raw` are the values before.
abbrev pub id_checks : String → Regex → Bool → List String → List (Bool × SequencingError)
id_checks field r required raw =
    let ids = map strip raw in
    (any is_blank raw, invalid (field <> " must be non-empty text"))
    ∷ (required && length ids == 0, invalid (field <> " cannot be empty"))
    ∷ (has_repeat ids, invalid (field <> " cannot contain duplicates"))
    ∷ (unmatched r ids, invalid (field <> " contains an invalid stable ID"))
    ∷ []

pub record EvidenceLeverageItem : Type 0 where
  pub requirement_id : String
  pub requirement_name : String
  pub description : String
  pub requirement_status : EvidenceRequirementStatus
  pub affected_decision_ids : List String
  pub affected_opportunity_ids : List String
  pub related_task_ids : List String
  pub affected_decision_count : ℕ
  pub affected_opportunity_count : ℕ
  pub highest_opportunity_priority : OpportunityPriority
  pub shared_across_decisions : Bool
  pub shared_across_opportunities : Bool
  pub existing_gap_id : Option String
  pub limitation : String

pub record InvestigationSequenceItem : Type 0 where
  pub sequence_order : ℕ
  pub task_id : String
  pub investigation_plan_id : String
  pub opportunity_id : String
  pub task_title : String
  pub task_kind : InvestigationTaskKind
  pub task_readiness : InvestigationReadiness
  pub affected_decision_ids : List String
  pub addressed_requirement_ids : List String
  pub affected_decision_count : ℕ
  pub opportunity_priority : OpportunityPriority
  pub opportunity_order : ℕ
  pub can_begin_now : Bool
  pub sequencing_reason : String
  pub limitation : String

pub record InvestigationSequencingPortfolio : Type 0 where
  pub business_id : String
  pub as_of_date : ℕ
  pub state : SequencingPortfolioState
  pub evidence_leverage_items : List EvidenceLeverageItem
  pub sequence_items : List InvestigationSequenceItem
  pub top_evidence_focus_requirement_id : Option String
  pub recommended_next_task_id : Option String
  pub startable_task_count : ℕ
  pub blocked_sequence_task_count : ℕ
  pub targeted_needs_more_evidence_decision_ids : List String
  pub boundary_blocked_decision_ids : List String
  pub limitation : String

abbrev pub is_same_truth : Bool → Bool → Bool
is_same_truth true b = b
is_same_truth false b = not b

abbrev pub strip_optional : Option String → Option String
strip_optional none = none
strip_optional (some s) = some (strip s)

-- `field`, where it is not None, fails the test.
abbrev pub fails : (String → Bool) → Option String → Bool
fails test none = false
fails test (some s) = test s
