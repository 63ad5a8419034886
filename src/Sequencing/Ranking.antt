-- ===== src/Sequencing/Ranking.antt =====
-- The order of the tasks, the recommendation and the state of a portfolio of
-- src/intelligence/sequencing.py.
use pulse_data_platform.Base.{
  ℕ, suc, ◌≡◌, refl, String, Bool, true, false, Option, none, some, List, [], ◌∷◌, map, All, ok,
  >>=-elim_ok, arith, Bool-cases, inl, inr, if◌then◌else◌, ltb,
}
use pulse_data_platform.Base.Sorting.{IsSorted}
use pulse_data_platform.Base.Strict.{
  text_less, IsStrict, not_after, lex, by, ltb-IsStrict, text_less-IsStrict, by-IsStrict,
  lex-IsStrict,
}
use pulse_data_platform.Intelligence.{priority_order}
use pulse_data_platform.Sequencing.Graph.{counts_up}
use pulse_data_platform.Sequencing.Items.{InvestigationSequenceItem}
use pulse_data_platform.Sequencing.Contracts.{sequence_item}
use pulse_data_platform.Sequencing.Cleaned.{sequence_item_lem}
use pulse_data_platform.Sequencing.Built.{sequence_items-All}
use pulse_data_platform.Sequencing.Leverage.{more, less_priority}
use pulse_data_platform.Sequencing.Sequence.{
  SequenceEntry, sequence_less, sequence_draft, sequence_items,
}
use pulse_data_platform.Sequencing.Portfolio.{recommended_of}

pub more-IsStrict : IsStrict more
more-IsStrict = record { asym = λ a b h. ground arith; trans = λ a b c h k. ground arith }

pub sequence_less-IsStrict : IsStrict sequence_less
unfolding sequence_less
sequence_less-IsStrict =
    lex-IsStrict _ _
      (by-IsStrict (λ (e : SequenceEntry). if e.can_begin then 0 else 1) ltb ltb-IsStrict)
      (lex-IsStrict _ _
        (by-IsStrict (λ (e : SequenceEntry). priority_order e.priority) ltb ltb-IsStrict)
        (lex-IsStrict _ _ (by-IsStrict (λ (e : SequenceEntry). e.affected_count) more more-IsStrict)
          (lex-IsStrict _ _
            (by-IsStrict (λ (e : SequenceEntry). e.opportunity_order) ltb ltb-IsStrict)
            (lex-IsStrict _ _ (by-IsStrict (λ (e : SequenceEntry). e.task_order) ltb ltb-IsStrict)
              (by-IsStrict (λ (e : SequenceEntry). e.task_id) text_less text_less-IsStrict)))))

-- Ready tasks first, then by the priority of the opportunity, then by the number of decisions that
-- wait, the most first, then by the order of the opportunity.
abbrev pub ranks_before : InvestigationSequenceItem → InvestigationSequenceItem → Bool
ranks_before = lex (by (λ (i : InvestigationSequenceItem). if i.can_begin_now then 0 else 1) ltb) (
    lex (by (λ (i : InvestigationSequenceItem). i.opportunity_priority) less_priority) (
      lex (by (λ (i : InvestigationSequenceItem). i.affected_decision_count) more)
        (by (λ (i : InvestigationSequenceItem). i.opportunity_order) ltb)))

abbrev Ranked : SequenceEntry → SequenceEntry → Type 0
Ranked a b = not_after sequence_less a b ≡ true

-- The item shows what the row was sorted by.
abbrev Shows : SequenceEntry → InvestigationSequenceItem → Type 0
Shows e i =
    (i.can_begin_now ≡ e.can_begin)
    × (i.opportunity_priority ≡ e.priority)
    × (i.affected_decision_count ≡ e.affected_count)
    × (i.opportunity_order ≡ e.opportunity_order)

Ranked-items :
    (a b : SequenceEntry) (i j : InvestigationSequenceItem)
    → Ranked a b
    → Shows a i
    → Shows b j
    → not_after ranks_before i j ≡ true
unfolding sequence_less
Ranked-items a b i j h si sj = rw (si.0, si.1, si.2, si.3, sj.0, sj.1, sj.2, sj.3) (ground arith)

item-Shows :
    (order : ℕ) (e : SequenceEntry) (i : InvestigationSequenceItem)
    → sequence_item (sequence_draft order e) ≡ ok i
    → Shows e i
item-Shows order e i h =
    rw⁻¹ (sequence_item_lem (sequence_draft order e) i h) (refl, refl, refl, refl)

abbrev pub orders : List InvestigationSequenceItem → List ℕ
orders items = map (λ (i : InvestigationSequenceItem). i.sequence_order) items

pub sequence_items-IsSorted :
    (order : ℕ) (rows : List SequenceEntry) (items : List InvestigationSequenceItem)
    → sequence_items order rows ≡ ok items
    → IsSorted (not_after sequence_less) rows
    → IsSorted (not_after ranks_before) items × (counts_up order (orders items) ≡ true)
unfolding sequence_items
sequence_items-IsSorted order [] items h sorted = let same : [] ≡ items = cc in rw⁻¹ same (tt, refl)
sequence_items-IsSorted order (e ∷ rows) items h sorted =
    >>=-elim_ok (sequence_item (sequence_draft order e)) _ h λ item e1 h1.
      >>=-elim_ok (sequence_items (suc order) rows) _ h1 λ rest e2 h2.
        let same : item ∷ rest ≡ items = cc in
        let shown = item-Shows order e item e1 in
        let later =
          sequence_items-All (Ranked e) (λ j. not_after ranks_before item j ≡ true)
            (λ n b j made after. Ranked-items e b item j after shown (item-Shows n b j made))
            (suc order) rows rest e2 sorted.0 in
        let (rest_sorted, rest_orders) =
          sequence_items-IsSorted (suc order) rows rest e2 sorted.1 in
        let numbered : item.sequence_order ≡ order =
          rw⁻¹ (sequence_item_lem (sequence_draft order e) item e1) refl in
        rw⁻¹ same ((later, rest_sorted), rw numbered (ground (arith, rest_orders)))

-- The first task, where it can begin.
abbrev pub first_startable : List InvestigationSequenceItem → Option String
first_startable [] = none
first_startable (i ∷ items) = if i.can_begin_now then some i.task_id else none

none_startable :
    (i : InvestigationSequenceItem) (items : List InvestigationSequenceItem)
    → i.can_begin_now ≡ false
    → All (λ j. not_after ranks_before i j ≡ true) items
    → recommended_of items ≡ none
none_startable i [] h all = refl
none_startable i (j ∷ items) h all =
    let blocked : j.can_begin_now ≡ false = ground arith in
    rw blocked (none_startable i items h all.1)

pub recommended_of_sorted :
    (items : List InvestigationSequenceItem)
    → IsSorted (not_after ranks_before) items
    → recommended_of items ≡ first_startable items
recommended_of_sorted [] h = refl
recommended_of_sorted (i ∷ items) h = elim (Bool-cases i.can_begin_now) [
  | inl ready ↦ rw ready refl
  | inr blocked ↦ rw blocked (none_startable i items blocked h.0)
]
