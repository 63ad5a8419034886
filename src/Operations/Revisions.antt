-- ===== src/Operations/Revisions.antt =====
-- What `event_latest_revisions` and `latest_order_events` of src/operations/models.py return,
-- whatever the order and the number of times in which the events arrive.
use pulse_data_platform.Base.{
  ℕ, ltb, ◌≤◌, ◌≡◌, refl, String, true, not, ◌&&◌, List, [], ◌++◌, arith, All, All-map, any, count,
  str_eq, eq_iff, eq_refl,
}
use pulse_data_platform.Base.Sorting.{
  IsSorted, sort_by, sort_by-IsSorted, All-sort_by, count-sort_by, any-sort_by,
}
use pulse_data_platform.Base.Strict.{
  IsStrict, by, ltb-IsStrict, text_less, text_less-IsStrict, by-IsStrict, lex-IsStrict, not_after,
  not_after-IsOrder,
}
use pulse_data_platform.Operations.Statuses.{status_stage}
use pulse_data_platform.Operations.Latest.{
  IsSame, keep_all, keep_all-All, keep_all_covered, keep_all-append, any_covered, covered_of_any,
  keep_all-covers, keep_all_unique, is_covered,
}
use pulse_data_platform.Operations.Events.{
  OperationalEvent, same_identity, older_revision, ordered_before, listed_before,
  event_latest_revisions, same_order, latest_order_events,
}

text_sym : (a b : String) → str_eq a b ≡ true → str_eq b a ≡ true
text_sym a b h = ground (arith, eq_iff a b, eq_iff b a)

text_trans : (a b c : String) → str_eq a b ≡ true → str_eq b c ≡ true → str_eq a c ≡ true
text_trans a b c h k = ground (arith, eq_iff a b, eq_iff b c, eq_iff a c)

same_identity-IsSame : IsSame same_identity
unfolding same_identity
same_identity-IsSame = record {
  refl_of = λ a. ground (
    arith,
    eq_refl a.business_id,
    eq_refl a.source_id,
    eq_refl a.provider,
    eq_refl a.external_event_id,
  );
  sym_of = λ a b h. ground (
    arith,
    text_sym a.business_id b.business_id,
    text_sym a.source_id b.source_id,
    text_sym a.provider b.provider,
    text_sym a.external_event_id b.external_event_id,
  );
  trans_of = λ a b c h k. ground (
    arith,
    text_trans a.business_id b.business_id c.business_id,
    text_trans a.source_id b.source_id c.source_id,
    text_trans a.provider b.provider c.provider,
    text_trans a.external_event_id b.external_event_id c.external_event_id,
  );
}

same_order-IsSame : IsSame same_order
unfolding same_order
same_order-IsSame = record {
  refl_of = λ a. ground (arith, eq_refl a.business_id, eq_refl a.order_id);
  sym_of =
      λ a b h. ground (arith, text_sym a.business_id b.business_id, text_sym a.order_id b.order_id);
  trans_of = λ a b c h k. ground (
    arith,
    text_trans a.business_id b.business_id c.business_id,
    text_trans a.order_id b.order_id c.order_id,
  );
}

text_by : (f : OperationalEvent → String) → IsStrict (by f text_less)
text_by f = by-IsStrict f text_less text_less-IsStrict

number_by : (f : OperationalEvent → ℕ) → IsStrict (by f ltb)
number_by f = by-IsStrict f ltb ltb-IsStrict

older_revision-IsStrict : IsStrict older_revision
unfolding older_revision
older_revision-IsStrict =
    lex-IsStrict _ _ (number_by (λ e. e.revision))
      (lex-IsStrict _ _ (number_by (λ e. e.received_at_utc)) (text_by (λ e. e.event_id)))

ordered_before-IsStrict : IsStrict ordered_before
unfolding ordered_before
ordered_before-IsStrict = lex-IsStrict _ _ (number_by (λ e. e.event_at)) (
    lex-IsStrict _ _ (number_by (λ e. e.revision)) (
      lex-IsStrict _ _ (number_by (λ e. status_stage e.canonical_status))
        (text_by (λ e. e.event_id))))

listed_before-IsStrict : IsStrict listed_before
unfolding listed_before
listed_before-IsStrict = lex-IsStrict _ _ (text_by (λ e. e.business_id)) (
    lex-IsStrict _ _ (text_by (λ e. e.source_id)) (
      lex-IsStrict _ _ (text_by (λ e. e.provider))
        (lex-IsStrict _ _ (text_by (λ e. e.external_event_id)) ordered_before-IsStrict)))

abbrev kept : List OperationalEvent → List OperationalEvent
kept events = keep_all same_identity older_revision events []

-- The result has, for each identity among the events, one event of it, none of the events of the
-- identity being newer by revision, receipt and id; it holds nothing but given events, and stands
-- in the order of identity and ordering key.
pub event_latest_revisions_newest :
    (events : List OperationalEvent)
    → let found = event_latest_revisions events in
      All (λ x. any (λ e. same_identity x e && not (older_revision e x)) found ≡ true) events
      × ((k : OperationalEvent) → count (same_identity k) found ≤ 1)
      × IsSorted (not_after listed_before) found
      × ((P : OperationalEvent → Type 0) → All P events → All P found)
unfolding event_latest_revisions
event_latest_revisions_newest events =
    let order = not_after listed_before in
    (
      All-map (λ x. is_covered same_identity older_revision x (kept events) ≡ true)
          (λ x.
            any (λ e. same_identity x e && not (older_revision e x)) (sort_by order (kept events))
            ≡ true)
          (λ x covered.
            rw
              (any-sort_by order (λ e. same_identity x e && not (older_revision e x)) (kept events))
              (any_covered same_identity older_revision x (kept events) covered))
          events
          (keep_all-covers same_identity older_revision same_identity-IsSame older_revision-IsStrict
            events []),
      λ k. rw (count-sort_by order (same_identity k) (kept events)) (
          keep_all_unique same_identity older_revision same_identity-IsSame older_revision-IsStrict
            k events [] (omega arith)),
      sort_by-IsSorted order (not_after-IsOrder listed_before listed_before-IsStrict) (kept events),
      λ P h.
          All-sort_by order P (kept events)
            (keep_all-All same_identity older_revision P events [] h tt),
    )

-- Events that arrive afterwards and are no newer than what is there for their identity change
-- nothing: the result is the same as without them.
pub event_latest_revisions_late :
    (events late : List OperationalEvent)
    → All
        (λ x.
          any (λ e. same_identity x e && not (older_revision e x)) (event_latest_revisions events)
          ≡ true)
        late
    → event_latest_revisions (events ++ late) ≡ event_latest_revisions events
unfolding event_latest_revisions
event_latest_revisions_late events late h =
    let order = not_after listed_before in
    let covered =
      All-map
        (λ x.
          any (λ e. same_identity x e && not (older_revision e x)) (sort_by order (kept events))
          ≡ true)
        (λ x. is_covered same_identity older_revision x (kept events) ≡ true)
        (λ x found.
          covered_of_any same_identity older_revision x (kept events)
            (keep_all_unique same_identity older_revision same_identity-IsSame
              older_revision-IsStrict x events [] (omega arith))
            (rw
              (any-sort_by order (λ e. same_identity x e && not (older_revision e x)) (kept events))
              at found))
        late h in
    rw
      (
        keep_all-append same_identity older_revision events late [],
        keep_all_covered same_identity older_revision late (kept events) covered,
      )
      refl

-- The latest event of an order is one of the latest revisions, and none of the revisions of the
-- order is behind it by its ordering key; every order of a revision has one.
pub latest_order_events_newest :
    (events : List OperationalEvent)
    → let found = latest_order_events events in
      let revisions = event_latest_revisions events in
      All (λ x. any (λ e. same_order x e && not (ordered_before e x)) found ≡ true) revisions
      × ((k : OperationalEvent) → count (same_order k) found ≤ 1)
      × ((P : OperationalEvent → Type 0) → All P revisions → All P found)
unfolding latest_order_events
latest_order_events_newest events =
    let revisions = event_latest_revisions events in
    let found = keep_all same_order ordered_before revisions [] in
    (
      All-map (λ x. is_covered same_order ordered_before x found ≡ true)
          (λ x. any (λ e. same_order x e && not (ordered_before e x)) found ≡ true)
          (λ x. any_covered same_order ordered_before x found) revisions
          (keep_all-covers same_order ordered_before same_order-IsSame ordered_before-IsStrict
            revisions []),
      λ k.
          keep_all_unique same_order ordered_before same_order-IsSame ordered_before-IsStrict k
            revisions [] (omega arith),
      λ P h. keep_all-All same_order ordered_before P revisions [] h tt,
    )
