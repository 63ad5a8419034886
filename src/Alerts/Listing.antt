-- ===== src/Alerts/Listing.antt =====
-- `list_alerts` of src/quality/alert_service.py: the filter, the order and the limit of its SELECT.
use pulse_data_platform.Base.{
  ℕ, zero, suc, ◌+◌, ◌≤◌, ◌<◌, ◌≡◌, ◌↔◌, ◌⊎◌, ◌∙◌, inl, inr, refl, ap, eq_iff, eq_refl, Bool-cases,
  [], ◌∷◌, String, Bool, true, false, not, ◌&&◌, ◌||◌, Option, none, some, List, arith, str_eq,
  ◌==◌, leb, ltb, select, take, length, length-take-le, count, All, All-take, All-map, All-select,
  Outcome, ok, err, if◌then◌else◌,
}
use pulse_data_platform.Base.Sorting.{
  IsOrder, sort_by, sort_by-IsSorted, IsSorted, All-sort_by, IsSorted-take, count-sort_by,
}
use pulse_data_platform.Alerts.Rows.{
  Severity, info, warning, critical, AlertStatus, open_status, acknowledged, resolved, other_status,
  AlertEvent, Store, is_active,
}
use pulse_data_platform.Alerts.Identity.{AlertError, bad_listing}

-- The `status` argument: the text 'ALL', or the text of a status.
pub data StatusFilter : Type 0 where
  all_statuses : StatusFilter
  only : AlertStatus → StatusFilter

-- `status in (None, "ALL", *STATES)`
unfoldable pub is_listable : Option StatusFilter → Bool
is_listable (some (only (other_status s))) = false
is_listable _ = true

abbrev pub status_eq : AlertStatus → AlertStatus → Bool
status_eq open_status open_status = true
status_eq acknowledged acknowledged = true
status_eq resolved resolved = true
status_eq (other_status a) (other_status b) = str_eq a b
status_eq _ _ = false

abbrev pub severity_eq : Severity → Severity → Bool
severity_eq info info = true
severity_eq warning warning = true
severity_eq critical critical = true
severity_eq _ _ = false

unfoldable pub has_status : Option StatusFilter → AlertStatus → Bool
unfolding is_active
has_status none s = is_active s
has_status (some all_statuses) s = true
has_status (some (only t)) s = status_eq s t

-- `%s::text IS NULL OR column=%s`
abbrev pub optional_text : Option String → String → Bool
optional_text none v = true
optional_text (some w) v = str_eq v w

abbrev pub optional_severity : Option Severity → Severity → Bool
optional_severity none v = true
optional_severity (some w) v = severity_eq v w

unfoldable pub is_listed :
    Option StatusFilter → Option String → Option String → Option Severity → AlertEvent → Bool
unfolding has_status
is_listed status dataset layer severity e =
    has_status status e.status
    && optional_text dataset e.dataset_name
    && optional_text layer e.layer
    && optional_severity severity e.severity

-- `ORDER BY last_seen_at_utc DESC,alert_event_id`
unfoldable pub listed_before : AlertEvent → AlertEvent → Bool
listed_before a b =
    ltb b.last_seen_at_utc a.last_seen_at_utc
    || a.last_seen_at_utc == b.last_seen_at_utc && leb a.alert_event_id b.alert_event_id

unfoldable pub list_alerts :
    Option StatusFilter
    → Option String
    → Option String
    → Option Severity
    → ℕ
    → Store
    → Outcome AlertError (List AlertEvent)
unfolding is_listable
list_alerts status dataset layer severity limit s =
    if not (is_listable status) || not (leb 1 limit && leb limit 1000)
    then err bad_listing
    else ok (
        take limit
          (sort_by listed_before (select (is_listed status dataset layer severity) s.events)))

listed_before-IsOrder : IsOrder listed_before
unfolding listed_before
listed_before-IsOrder = record { total = λ a b h. ground arith; trans = λ a b c h k. ground arith }

-- What the arguments ask of a row.
abbrev pub StatusFits : Option StatusFilter → AlertStatus → Type 0
StatusFits none s = (s ≡ open_status) ⊎ (s ≡ acknowledged)
StatusFits (some all_statuses) s = Unit
StatusFits (some (only t)) s = s ≡ t

abbrev pub Fits {ℓ} : {A : Type ℓ} → Option A → A → Type ℓ
Fits none v = Unit
Fits (some w) v = v ≡ w

abbrev pub Matches :
    Option StatusFilter → Option String → Option String → Option Severity → AlertEvent → Type 0
Matches status dataset layer severity e =
    StatusFits status e.status
    × Fits dataset e.dataset_name
    × Fits layer e.layer
    × Fits severity e.severity

status_eq_sound : (s t : AlertStatus) → status_eq s t ≡ true → s ≡ t
status_eq_sound open_status open_status h = refl
status_eq_sound open_status acknowledged h = absurd (cc)
status_eq_sound open_status resolved h = absurd (cc)
status_eq_sound open_status (other_status y) h = absurd (cc)
status_eq_sound acknowledged open_status h = absurd (cc)
status_eq_sound acknowledged acknowledged h = refl
status_eq_sound acknowledged resolved h = absurd (cc)
status_eq_sound acknowledged (other_status y) h = absurd (cc)
status_eq_sound resolved open_status h = absurd (cc)
status_eq_sound resolved acknowledged h = absurd (cc)
status_eq_sound resolved resolved h = refl
status_eq_sound resolved (other_status y) h = absurd (cc)
status_eq_sound (other_status x) open_status h = absurd (cc)
status_eq_sound (other_status x) acknowledged h = absurd (cc)
status_eq_sound (other_status x) resolved h = absurd (cc)
status_eq_sound (other_status x) (other_status y) h = ap other_status ((eq_iff x y).0 h)

status_eq_refl : (s : AlertStatus) → status_eq s s ≡ true
status_eq_refl open_status = refl
status_eq_refl acknowledged = refl
status_eq_refl resolved = refl
status_eq_refl (other_status x) = eq_refl x

severity_eq_sound : (s t : Severity) → severity_eq s t ≡ true → s ≡ t
severity_eq_sound info info h = refl
severity_eq_sound info warning h = absurd (cc)
severity_eq_sound info critical h = absurd (cc)
severity_eq_sound warning info h = absurd (cc)
severity_eq_sound warning warning h = refl
severity_eq_sound warning critical h = absurd (cc)
severity_eq_sound critical info h = absurd (cc)
severity_eq_sound critical warning h = absurd (cc)
severity_eq_sound critical critical h = refl

severity_eq_refl : (s : Severity) → severity_eq s s ≡ true
severity_eq_refl info = refl
severity_eq_refl warning = refl
severity_eq_refl critical = refl

optional_text-Fits : (o : Option String) (v : String) → (optional_text o v ≡ true) ↔ Fits o v
optional_text-Fits none v = (λ h. tt, λ h. refl)
optional_text-Fits (some w) v = eq_iff v w

optional_severity-Fits :
    (o : Option Severity) (v : Severity) → (optional_severity o v ≡ true) ↔ Fits o v
optional_severity-Fits none v = (λ h. tt, λ h. refl)
optional_severity-Fits (some w) v = (severity_eq_sound v w, λ h. rw h (severity_eq_refl w))

status_fits : (f : Option StatusFilter) (s : AlertStatus) → (has_status f s ≡ true) ↔ StatusFits f s
unfolding has_status is_active
status_fits none open_status = (λ h. inl refl, λ h. refl)
status_fits none acknowledged = (λ h. inr refl, λ h. refl)
status_fits none resolved =
    (λ h. absurd (cc), λ h. elim h [ inl e ↦ absurd (cc) | inr e ↦ absurd (cc) ])
status_fits none (other_status x) =
    (λ h. absurd (cc), λ h. elim h [ inl e ↦ absurd (cc) | inr e ↦ absurd (cc) ])
status_fits (some all_statuses) s = (λ h. tt, λ h. refl)
status_fits (some (only t)) s = (status_eq_sound s t, λ h. rw h (status_eq_refl t))

is_listed-Matches :
    (status : Option StatusFilter) (dataset layer : Option String) (severity : Option Severity)
    (e : AlertEvent)
    → (is_listed status dataset layer severity e ≡ true) ↔ Matches status dataset layer severity e
unfolding is_listed
is_listed-Matches status dataset layer severity e = (
  λ h. (
    (status_fits status e.status).0 (ground arith),
    (optional_text-Fits dataset e.dataset_name).0 (ground arith),
    (optional_text-Fits layer e.layer).0 (ground arith),
    (optional_severity-Fits severity e.severity).0 (ground arith),
  ),
  λ (a, b, c, d).
      rw
        (
          (status_fits status e.status).1 a,
          (optional_text-Fits dataset e.dataset_name).1 b,
          (optional_text-Fits layer e.layer).1 c,
          (optional_severity-Fits severity e.severity).1 d,
        )
        refl,
)

-- Seen later, or seen last at the same time and with the lower identity.
abbrev pub Before : AlertEvent → AlertEvent → Type 0
Before a b =
    (b.last_seen_at_utc < a.last_seen_at_utc)
    ⊎ ((a.last_seen_at_utc ≡ b.last_seen_at_utc) × (a.alert_event_id ≤ b.alert_event_id))

listed_before-Before : (a b : AlertEvent) → listed_before a b ≡ true → Before a b
unfolding listed_before
listed_before-Before a b h = elim (Bool-cases (ltb b.last_seen_at_utc a.last_seen_at_utc)) [
  | inl e ↦ inl (ground arith)
  | inr e ↦ inr (ground arith, ground arith)
]

abbrev pub InOrder : List AlertEvent → Type 0
InOrder [] = Unit
InOrder (x ∷ xs) = All (Before x) xs × InOrder xs

-- What a limit cuts off: the rows past the first `n`.
abbrev rest_of : ℕ → List AlertEvent → List AlertEvent
rest_of zero xs = xs
rest_of (suc n) [] = []
rest_of (suc n) (x ∷ xs) = rest_of n xs

count-rest :
    (p : AlertEvent → Bool) (n : ℕ) (xs : List AlertEvent)
    → count p (take n xs) + count p (rest_of n xs) ≡ count p xs
count-rest p zero xs = omega arith
count-rest p (suc n) [] = refl
count-rest p (suc n) (x ∷ xs) = omega (arith, count-rest p n xs)

All-rest {κ} :
    (P : AlertEvent → Type κ) (n : ℕ) (xs : List AlertEvent) → All P xs → All P (rest_of n xs)
All-rest P zero xs h = h
All-rest P (suc n) [] h = tt
All-rest P (suc n) (x ∷ xs) h = All-rest P n xs h.1

rest_of-Before :
    (n : ℕ) (xs : List AlertEvent)
    → IsSorted listed_before xs
    → All (λ a. All (Before a) (rest_of n xs)) (take n xs)
rest_of-Before zero xs h = tt
rest_of-Before (suc n) [] h = tt
rest_of-Before (suc n) (x ∷ xs) h = (
  All-rest (Before x) n xs
      (All-map (λ y. listed_before x y ≡ true) (Before x) (listed_before-Before x) xs h.0),
  rest_of-Before n xs h.1,
)

full_or_all : (n : ℕ) (xs : List AlertEvent) → (length (take n xs) ≡ n) ⊎ (rest_of n xs ≡ [])
full_or_all zero xs = inl refl
full_or_all (suc n) [] = inr refl
full_or_all (suc n) (x ∷ xs) = elim (full_or_all n xs) [
  | inl full ↦ inl (ap suc full)
  | inr none_left ↦ inr none_left
]

sorted_pairs : (xs : List AlertEvent) → IsSorted listed_before xs → InOrder xs
sorted_pairs [] h = tt
sorted_pairs (x ∷ xs) h = (
  All-map (λ y. listed_before x y ≡ true) (Before x) (listed_before-Before x) xs h.0,
  sorted_pairs xs h.1,
)

-- A listing that returns has at most `limit` rows, of 1,000 at most, all of which match the
-- arguments: by default a row matches if it is OPEN or ACKNOWLEDGED. The latest seen come first, and
-- by identity among those seen last at the same time. The stored rows that match are, as often as
-- they are stored, those listed and a rest; each row listed stands before each of the rest, and
-- there is a rest only where the listing is full.
pub list_alerts_sound :
    (status : Option StatusFilter) (dataset layer : Option String) (severity : Option Severity)
    (limit : ℕ) (s : Store) (rows : List AlertEvent)
    → list_alerts status dataset layer severity limit s ≡ ok rows
    → (length rows ≤ limit)
      × (limit ≤ 1000)
      × All (Matches status dataset layer severity) rows
      × InOrder rows
      × ((e : AlertEvent)
          → (is_listed status dataset layer severity e ≡ true)
            ↔ Matches status dataset layer severity e)
      × ((rest : List AlertEvent) × ((p : AlertEvent → Bool)
            → count p rows + count p rest
              ≡ count p (select (is_listed status dataset layer severity) s.events))
          × All (λ e. All (Before e) rest) rows
          × ((length rows ≡ limit) ⊎ (rest ≡ [])))
unfolding list_alerts
list_alerts_sound status dataset layer severity limit s rows h =
    let test = is_listed status dataset layer severity in
    let found = sort_by listed_before (select test s.events) in
    let sorted = sort_by-IsSorted listed_before listed_before-IsOrder (select test s.events) in
    let made : rows ≡ take limit found = ground arith in
    rw made (
      length-take-le limit found,
      ground arith,
      All-take (Matches status dataset layer severity) limit found (
          All-sort_by listed_before (Matches status dataset layer severity) (select test s.events) (
            All-map (λ e. test e ≡ true) (Matches status dataset layer severity)
              (λ e listed. (is_listed-Matches status dataset layer severity e).0 listed)
              (select test s.events) (All-select test s.events))),
      sorted_pairs (take limit found) (IsSorted-take listed_before limit found sorted),
      is_listed-Matches status dataset layer severity,
      (
        rest_of limit found,
        λ p. count-rest p limit found ∙ count-sort_by listed_before p (select test s.events),
        rest_of-Before limit found sorted,
        full_or_all limit found,
      ),
    )
